-- ===== src/Rules/Error.antt =====
-- crates/budu-rules/src/ruleset.rs: `Result<_, RuleError>`. An error names the rule and the reason, in
-- place of the message.
use mathlib.Core.Path.{subst}
use budu_waf.Prelude.{◌≡◌, refl, Text, List, [], ◌∷◌, Option, none, some, All}

pub data Reason : Type 0 where
  no_condition response_field_in_request request_field_in_response response_action bad_status :
      Reason
  no_rps no_score no_counter no_name unknown_field bad_tz not_numeric bad_regex cidr_field : Reason
  bad_cidr empty_values time_field bad_window day_field bad_days no_libinjection unknown_op : Reason
  time_op day_op unknown_transform : Reason

pub data RuleError : Type 0 where
  invalid : (rule : Text) (why : Reason) → RuleError

-- a compilation that fails with an error, or gives a value
pub data Result {ℓ} (T : Type ℓ) : Type ℓ where
  err : (why : RuleError) → Result T
  ok : (value : T) → Result T

infixl 5 ◌>>=◌
-- the `?` operator
abbrev pub ◌>>=◌ {ℓ κ} : {T : Type ℓ} {U : Type κ} → Result T → (T → Result U) → Result U
err why >>= next = err why
ok value >>= next = next value

-- `ok_or_else`
abbrev pub or_fail {ℓ} : {A : Type ℓ} → Option A → RuleError → Result A
or_fail none e = err e
or_fail (some a) e = ok a

-- `iter().map(f).collect::<Result<Vec<_>, _>>()`: the first error ends it
unfoldable pub collect {ℓ κ} : {A : Type ℓ} {B : Type κ} → (A → Result B) → List A → Result (List B)
collect f [] = ok []
collect f (a ∷ as') = f a >>= λ b. collect f as' >>= λ bs. ok (b ∷ bs)

-- A chain that ends well took every step.
pub >>=-eq-ok {ℓ κ} :
    {T : Type ℓ} {U : Type κ} (r : Result T) (next : T → Result U) {u : U}
    → (r >>= next) ≡ ok u
    → (t : T) × (r ≡ ok t) × (next t ≡ ok u)
>>=-eq-ok (err why) next e = cc
>>=-eq-ok (ok value) next e = (value, refl, e)

pub ok-injective {ℓ} : {A : Type ℓ} {a b : A} → ok a ≡ ok b → a ≡ b
ok-injective h = cc

-- What the results of a `collect` have in common.
pub collect-All {ℓ κ μ} :
    {A : Type ℓ} {B : Type κ} (P : B → Type μ) (f : A → Result B)
    → ((a : A) (b : B) → f a ≡ ok b → P b)
    → (as' : List A) (bs : List B) → collect f as' ≡ ok bs
    → All P bs
unfolding collect
collect-All P f k [] bs h = subst (All P) (ok-injective h) tt
collect-All P f k (a ∷ as') bs h =
    let (c, e₁, h₁) = >>=-eq-ok (f a) _ h in
    let (cs, e₂, h₂) = >>=-eq-ok (collect f as') _ h₁ in
    subst (All P) (ok-injective h₂) (k a c e₁, collect-All P f k as' cs e₂)
