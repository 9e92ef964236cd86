-- ===== src/Signatures/Hits.antt =====
-- crates/budu-signatures/src/db.rs: a hit is that of a signature whose pattern matches.
use budu_waf.Prelude.{
  ℕ, zero, suc, ◌≡◌, refl, ap, ◌∙◌, true, Option, none, some, List, [], ◌∷◌, ◌++◌, Text, contains,
  to_lower, get_elem?, arith, ◌⊎◌, Option-cases, inl, inr,
}
use mathlib.Core.Path.{subst, subst₂}
use mathlib.Core.List.{Memᴰ}
use budu_waf.External.{Externals}
use budu_waf.Signatures.{
  Signature, SignatureDb, Hit, SignatureError, Result, ok, err, meta_of, empty_db, add_pattern,
  add_signature, add_signatures, finish, compile, scan,
}

-- A literal or an expression beside its record, at the same place of two lists.
pub data Aligned (P : Text → Hit → Type 0) : List Text → List Hit → Type 0 where
  nil : Aligned P [] []
  cons :
      {t : Text} {h : Hit} {ts : List Text} {hs : List Hit}
      → P t h
      → Aligned P ts hs
      → Aligned P (t ∷ ts) (h ∷ hs)

Aligned-append :
    {P : Text → Hit → Type 0} {ts : List Text} {hs : List Hit} (t : Text) (h : Hit)
    → Aligned P ts hs
    → P t h
    → Aligned P (ts ++ (t ∷ [])) (hs ++ (h ∷ []))
Aligned-append t h nil p = cons p nil
Aligned-append t h (cons q a) p = cons q (Aligned-append t h a p)

Aligned-get :
    {P : Text → Hit → Type 0} {ts : List Text} {hs : List Hit} (i : ℕ) (t : Text)
    → Aligned P ts hs
    → get_elem? ts i ≡ some t
    → (h : Hit) × (get_elem? hs i ≡ some h) × P t h
Aligned-get i t nil e = absurd (cc)
Aligned-get {P} zero t (cons {t = u} {h} p a) e =
    let same : u ≡ t = ground arith in (h, refl, subst (λ v. P v h) same p)
Aligned-get (suc i) t (cons p a) e = Aligned-get i t a e

-- The record of a literal, or of an expression, is that of the signature that it comes from.
abbrev pub IsLiteral : List Signature → Text → Hit → Type 0
IsLiteral all t h =
    (s : Signature) × Memᴰ s all
    × ((l : Text) × (s.literal ≡ some l) × (t ≡ to_lower l))
    × (h ≡ meta_of s)

abbrev pub IsRegex : List Signature → Text → Hit → Type 0
IsRegex all t h =
    (s : Signature) × Memᴰ s all × ((s.literal ≡ none) × (s.regex ≡ some t)) × (h ≡ meta_of s)

record IsBuilt (all : List Signature) (db : SignatureDb) : Type 0 where
  literals : Aligned (IsLiteral all) db.literals db.literal_meta
  regexes : Aligned (IsRegex all) db.regexes db.regex_meta

Result-cases :
    (r : Result SignatureDb)
    → ((db : SignatureDb) × (r ≡ ok db)) ⊎ ((e : SignatureError) × (r ≡ err e))
Result-cases (ok db) = inl (db, refl)
Result-cases (err e) = inr (e, refl)

ok-injective : {a b : SignatureDb} → ok a ≡ ok b → a ≡ b
ok-injective h = cc

add_pattern-IsBuilt :
    (all : List Signature) (s : Signature) (m : Memᴰ s all) (l re : Option Text)
    (db db' : SignatureDb)
    → s.literal ≡ l
    → s.regex ≡ re
    → IsBuilt all db
    → add_pattern s l re db ≡ ok db'
    → IsBuilt all db'
unfolding add_pattern
add_pattern-IsBuilt all s m (some l) re db db' p q b e =
    subst (IsBuilt all) (ok-injective e) (record {
      literals = Aligned-append (to_lower l) (meta_of s) b.literals (s, m, (l, p, refl), refl);
      regexes = b.regexes;
    })
add_pattern-IsBuilt all s m none (some re) db db' p q b e =
    subst (IsBuilt all) (ok-injective e) (record {
      literals = b.literals;
      regexes = Aligned-append re (meta_of s) b.regexes (s, m, (p, q), refl);
    })
add_pattern-IsBuilt all s m none none db db' p q b e = absurd (cc)

module _ (x : Externals) (all : List Signature) where
  add_signature-IsBuilt :
      (s : Signature) (m : Memᴰ s all) (db db' : SignatureDb)
      → IsBuilt all db
      → add_signature x s db ≡ ok db'
      → IsBuilt all db'
  unfolding add_signature
  add_signature-IsBuilt s m db db' b e =
      add_pattern-IsBuilt all s m s.literal s.regex db db' refl refl b (ground arith)

  add_signatures-IsBuilt :
      (ss : List Signature) (db db' : SignatureDb)
      → ((s : Signature) → Memᴰ s ss → Memᴰ s all)
      → IsBuilt all db
      → add_signatures x ss db ≡ ok db'
      → IsBuilt all db'
  unfolding add_signatures
  add_signatures-IsBuilt [] db db' k b e = subst (IsBuilt all) (ok-injective e) b
  add_signatures-IsBuilt (s ∷ ss) db db' k b e = elim (Result-cases (add_signature x s db)) [
    | inl (d, h) ↦
        add_signatures-IsBuilt ss d db' (λ t m. k t (Memᴰ.tail m))
          (add_signature-IsBuilt s (k s (Memᴰ.head refl)) db d b h) (rw (h, add_signatures) at e)
    | inr (f, h) ↦ absurd (ground arith)
  ]

  compile-IsBuilt : (db : SignatureDb) → compile x all ≡ ok db → IsBuilt all db
  unfolding compile finish
  compile-IsBuilt db e = elim (Result-cases (add_signatures x all empty_db)) [
    | inl (d, h) ↦
        let b =
          add_signatures-IsBuilt all empty_db d (λ s m. m)
            (record { literals = nil; regexes = nil }) h in
        record {
          literals = subst₂ (Aligned (IsLiteral all)) (ground arith) (ground arith) b.literals;
          regexes = subst₂ (Aligned (IsRegex all)) (ground arith) (ground arith) b.regexes;
        }
    | inr (f, h) ↦ absurd (ground arith)
  ]

-- What the two automata promise: an index that they give is that of a pattern which matches.
pub record AutomataLaws (x : Externals) : Type 0 where
  pub literal :
      (pats : List Text) (h : Text) (i : ℕ)
      → x.find_literal pats h ≡ some i
      → (t : Text) × (get_elem? pats i ≡ some t) × (contains h t ≡ true)
  pub regex :
      (pats : List Text) (h : Text) (i : ℕ) (is : List ℕ)
      → x.regex_set_matches pats h ≡ i ∷ is
      → (t : Text) × (get_elem? pats i ≡ some t)
        × ((r : x.Regex) × (x.build_regex t ≡ some r) × (x.is_match r h ≡ true))

-- A signature matches a text by its literal, in lower case, or, having none, by its expression.
abbrev pub Matches : Externals → Signature → Text → Type 0
Matches x s h =
    ((l : Text) × (s.literal ≡ some l) × (contains h (to_lower l) ≡ true))
    ⊎ ((re : Text) × (r : x.Regex) × (s.literal ≡ none)
        × (s.regex ≡ some re)
        × (x.build_regex re ≡ some r)
        × (x.is_match r h ≡ true))

List-cases : (l : List ℕ) → (l ≡ []) ⊎ ((i : ℕ) × (is : List ℕ) × (l ≡ i ∷ is))
List-cases [] = inl refl
List-cases (i ∷ is) = inr (i, is, refl)

module _ (x : Externals) (laws : AutomataLaws x) (sigs : List Signature) (db : SignatureDb) where
  -- what a scan gives, as the signature that it is about
  abbrev Found : Text → Type 0
  Found h = (s : Signature) × Memᴰ s sigs × Matches x s h × (scan x db h ≡ some (meta_of s))

  scan-literal :
      (h : Text) (i : ℕ) → IsBuilt sigs db → x.find_literal db.literals h ≡ some i → Found h
  unfolding scan
  scan-literal h i b e =
      let (t, at, has) = laws.literal db.literals h i e in
      let (m, got, (s, mem, (l, p, q), same)) = Aligned-get i t b.literals at in
      (
        s,
        mem,
        inl (l, p, subst (λ v. contains h v ≡ true) q has),
        rw (e, scan) (got ∙ ap (λ v. some v) same),
      )

  scan-regex :
      (h : Text) (i : ℕ) (is : List ℕ)
      → IsBuilt sigs db
      → x.find_literal db.literals h ≡ none
      → x.regex_set_matches db.regexes h ≡ i ∷ is
      → Found h
  unfolding scan
  scan-regex h i is b e f =
      let (t, at, (r, built, has)) = laws.regex db.regexes h i is f in
      let (m, got, (s, mem, (p, q), same)) = Aligned-get i t b.regexes at in
      (s, mem, inr (t, r, p, q, built, has), rw (e, f, scan) (got ∙ ap (λ v. some v) same))

  -- A scan of a compiled database gives nothing exactly if neither automaton finds anything, so that no
  -- index is out of range; and a hit is the record of a signature of the list that matches the text.
  pub scan_sound :
      (h : Text)
      → compile x sigs ≡ ok db
      → ((x.find_literal db.literals h ≡ none)
          × (x.regex_set_matches db.regexes h ≡ [])
          × (scan x db h ≡ none))
        ⊎ Found h
  unfolding scan
  scan_sound h e =
      let b = compile-IsBuilt x sigs db e in
      elim (Option-cases (x.find_literal db.literals h)) [
        | inr (i, f) ↦ inr (scan-literal h i b f)
        | inl f ↦ elim (List-cases (x.regex_set_matches db.regexes h)) [
          | inl g ↦ inl (f, g, rw (f, g, scan))
          | inr (i, is, g) ↦ inr (scan-regex h i is b f g)
        ]
      ]
