-- ===== src/Proxy/HopByHop.antt =====
-- crates/budu-proxy/src/lib.rs: the headers that a forwarded request keeps.
use budu_waf.Prelude.{
  to_lower, is_lower, is_empty, all, not, ◌&&◌, ◌==◌, ℕ, ◌≡◌, refl, ◌∙◌, Bool, true, false, ◌||◌,
  Option, none, some, List, [], ◌∷◌, Text, Bytes, lit, arith, eq_text, any, Bool-cases,
  if◌then◌else◌, inl, inr,
}
use budu_waf.External.{Externals}
use budu_waf.Proxy.Model.{Http}
use budu_waf.Proxy.Headers.{hop_by_hop, listed, remove_all, pin_length, sanitize_forward_headers}

-- Header names are compared without regard to case.
abbrev pub same_name : Text → Text → Bool
same_name n m = eq_text (to_lower n) (to_lower m)

-- a name of small letters and dashes
abbrev pub is_plain_name : Text → Bool
is_plain_name n = not (is_empty n) && all (λ c. is_lower c || c == b'-') n

-- What the http crate says of a header map: a removed name has no value, an inserted one has the value
-- it was given, and other names keep theirs. `insert` is used with names of small letters and dashes.
pub record HeaderLaws (x : Externals) : Type 0 where
  pub get-remove :
      (t : x.Headers) (n m : Text) → same_name n m ≡ true → x.get (x.remove t n) m ≡ none
  pub get-remove_other :
      (t : x.Headers) (n m : Text) → same_name n m ≡ false → x.get (x.remove t n) m ≡ x.get t m
  pub get-insert :
      (t : x.Headers) (n m : Text) (v : Bytes)
      → is_plain_name n ≡ true
      → same_name n m ≡ true
      → x.get (x.insert t n v) m ≡ some v
  pub get-insert_other :
      (t : x.Headers) (n m : Text) (v : Bytes)
      → is_plain_name n ≡ true
      → same_name n m ≡ false
      → x.get (x.insert t n v) m ≡ x.get t m

-- A name of a list, in whatever case.
unfoldable pub named : Text → List Text → Bool
named m names = any (λ n. same_name n m) names

module _ (x : Externals) (laws : HeaderLaws x) where
  get-remove_absent :
      (t : x.Headers) (n m : Text) → x.get t m ≡ none → x.get (x.remove t n) m ≡ none
  get-remove_absent t n m h = elim (Bool-cases (same_name n m)) [
    | inl e ↦ laws.get-remove t n m e
    | inr e ↦ laws.get-remove_other t n m e ∙ h
  ]

  remove_all_absent :
      (names : List Text) (t : x.Headers) (m : Text)
      → x.get t m ≡ none
      → x.get (remove_all x names t) m ≡ none
  unfolding remove_all
  remove_all_absent [] t m h = h
  remove_all_absent (n ∷ names) t m h =
      remove_all_absent names (x.remove t n) m (get-remove_absent t n m h)

  remove_all-named :
      (names : List Text) (t : x.Headers) (m : Text)
      → named m names ≡ true
      → x.get (remove_all x names t) m ≡ none
  unfolding remove_all named
  remove_all-named [] t m h = cc
  remove_all-named (n ∷ names) t m h = elim (Bool-cases (same_name n m)) [
    | inl e ↦ remove_all_absent names (x.remove t n) m (laws.get-remove t n m e)
    | inr e ↦ remove_all-named names (x.remove t n) m (rw e at h)
  ]

  remove_all-other :
      (names : List Text) (t : x.Headers) (m : Text)
      → named m names ≡ false
      → x.get (remove_all x names t) m ≡ x.get t m
  unfolding remove_all named
  remove_all-other [] t m h = refl
  remove_all-other (n ∷ names) t m h = elim (Bool-cases (same_name n m)) [
    | inl e ↦ absurd (ground arith)
    | inr e ↦ remove_all-other names (x.remove t n) m (rw e at h) ∙ laws.get-remove_other t n m e
  ]

module _ (x : Externals) (h : Http x) (laws : HeaderLaws x) where
  stripped :
      (t : x.Headers) (m : Text)
      → (named m hop_by_hop || named m (listed x t)) ≡ true
      → x.get (remove_all x hop_by_hop (remove_all x (listed x t) t)) m ≡ none
  stripped t m e = elim (Bool-cases (named m hop_by_hop)) [
    | inl k ↦ remove_all-named x laws hop_by_hop _ m k
    | inr k ↦
        remove_all_absent x laws hop_by_hop _ m
          (remove_all-named x laws (listed x t) t m (ground arith))
  ]

  kept :
      (t : x.Headers) (m : Text)
      → (named m hop_by_hop || named m (listed x t)) ≡ false
      → x.get (remove_all x hop_by_hop (remove_all x (listed x t) t)) m ≡ x.get t m
  kept t m e =
      remove_all-other x laws hop_by_hop _ m (ground arith)
      ∙ remove_all-other x laws (listed x t) t m (ground arith)

  pin_length-other :
      (len : ℕ) (t : x.Headers) (m : Text)
      → same_name (lit "content-length") m ≡ false
      → x.get (pin_length x h len t) m ≡ x.get t m
  unfolding pin_length
  pin_length-other len t m e =
      laws.get-insert_other _ (lit "content-length") m _ refl e
      ∙ laws.get-remove_other t (lit "content-length") m e

  forwarded : x.Headers → Text → Option Bytes
  forwarded t m = if named m hop_by_hop || named m (listed x t) then none else x.get t m

  stripped-forwarded :
      (t : x.Headers) (m : Text)
      → x.get (remove_all x hop_by_hop (remove_all x (listed x t) t)) m ≡ forwarded t m
  unfolding forwarded
  stripped-forwarded t m = elim (Bool-cases (named m hop_by_hop || named m (listed x t))) [
    | inl e ↦ rw (e) (stripped t m e)
    | inr e ↦ rw (e) (kept t m e)
  ]

  -- What is forwarded of a header other than Content-Length, whatever the case of its name: nothing if
  -- the name is one of the eight fixed hop-by-hop names or stands in the first Connection header, if
  -- that is text, and otherwise exactly the value it had.
  pub sanitize_forward_headers-get :
      (t : x.Headers) (buffered_len : Option ℕ) (m : Text)
      → same_name (lit "content-length") m ≡ false
      → x.get (sanitize_forward_headers x h t buffered_len) m
        ≡ (if named m hop_by_hop || named m (listed x t) then none else x.get t m)
  unfolding sanitize_forward_headers forwarded
  sanitize_forward_headers-get t none m e = stripped-forwarded t m
  sanitize_forward_headers-get t (some len) m e =
      pin_length-other len _ m e ∙ stripped-forwarded t m

  pub sanitize_forward_headers-framed :
      (t : x.Headers) (len : ℕ)
      → (x.get (sanitize_forward_headers x h t (some len)) (lit "content-length")
          ≡ some (h.number_value len))
        × (x.get (sanitize_forward_headers x h t (some len)) (lit "transfer-encoding") ≡ none)
  unfolding sanitize_forward_headers pin_length named
  sanitize_forward_headers-framed t len = (
    laws.get-insert _ (lit "content-length") (lit "content-length") _ refl refl,
    sanitize_forward_headers-get t (some len) (lit "transfer-encoding") refl,
  )
