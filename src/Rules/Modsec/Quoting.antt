-- ===== src/Rules/Modsec/Quoting.antt =====
-- crates/budu-rules/src/modsec.rs: what `tokenize` reads from quoted texts.
use budu_waf.Prelude.{
  ◌≡◌, refl, ◌∙◌, ap, sym, Bool, true, false, not, ◌==◌, List, [], ◌∷◌, ◌++◌, Text, all, arith,
  if◌then◌else◌, Bool-cases, inl, inr,
}
use mathlib.Core.List.{append-nil, append_assoc}
use budu_waf.Rules.Modsec.Tokens.{between, quoted, tokens_from, tokenize, escape_of}

-- a text between double quotes, with a backslash before each of its own, and what follows
abbrev pub quote_onto : Text → Text → Text
quote_onto [] rest = b'"' ∷ rest
quote_onto (c ∷ s) rest = if c == b'"' then b'\\' ∷ c ∷ quote_onto s rest else c ∷ quote_onto s rest

abbrev pub quote_all : List Text → Text
quote_all [] = []
quote_all (t ∷ ts) = b'"' ∷ quote_onto t (b' ' ∷ quote_all ts)

abbrev pub no_backslash : Text → Bool
no_backslash s = all (λ c. not (c == b'\\')) s

quoted-quote_onto :
    (tok s rest : Text)
    → no_backslash s ≡ true
    → tokens_from (quoted b'"' tok) (quote_onto s rest) ≡ (tok ++ s) ∷ tokens_from between rest
unfolding tokens_from
quoted-quote_onto tok [] rest h = ap (λ t. t ∷ tokens_from between rest) (sym (append-nil tok))
quoted-quote_onto tok (c ∷ s) rest h =
    let later =
      quoted-quote_onto (tok ++ (c ∷ [])) s rest (ground arith)
      ∙ ap (λ t. t ∷ tokens_from between rest) (append_assoc tok (c ∷ []) s) in
    let plain : (c == b'\\') ≡ false = ground arith in
    elim (Bool-cases (c == b'"')) [
      | inl e ↦ rw (e, escape_of) (rw e later)
      | inr e ↦
          let step : tokens_from (quoted b'"' tok) (c ∷ quote_onto s rest)
              ≡ (tok ++ (c ∷ s)) ∷ tokens_from between rest =
            rw (plain, e, tokens_from) later in
          rw e step
    ]

-- The tokenizer reads back every list of texts without backslashes, each between double quotes and
-- followed by a blank, whatever quotes and white space are in them.
pub tokenize-quote_all :
    (ts : List Text) → all no_backslash ts ≡ true → tokenize (quote_all ts) ≡ ts
unfolding tokenize tokens_from
tokenize-quote_all [] h = refl
tokenize-quote_all (t ∷ ts) h =
    let here : no_backslash t ≡ true = ground arith in
    let later : all no_backslash ts ≡ true = ground arith in
    quoted-quote_onto [] t (b' ' ∷ quote_all ts) here
    ∙ ap (λ us. t ∷ us) (tokenize-quote_all ts later)
