-- ===== src/RateLimit/Counters.antt =====
-- crates/budu-ratelimit/src/lib.rs: counters of different names or addresses do not meet.
use mathlib.Core.Path.{subst}
use budu_waf.Prelude.{
  ◌∙◌, ◌||◌, sym, suc, length, ◌<◌, ◌≤◌, List, ◌&&◌, eq_text, eq_text_sound, eq_text_refl, All,
  Bool-cases, if◌then◌else◌, ℕ, ◌+◌, ◌≡◌, ◌≢◌, refl, ap, Bool, true, false, ◌==◌, Option, none,
  some, [], ◌∷◌, ◌++◌, Text, arith, all, not, u64_max, saturating_add, ◌⊎◌, inl, inr, ltb,
}
use budu_waf.Common.{IpAddr, v4, v6}
use budu_waf.External.{Externals, Counter}
use budu_waf.RateLimit.{at_least, key, get_counter, incr}

-- A text without the separator of keys.
unfoldable pub no_separator : Text → Bool
no_separator s = all (λ c. not (c == 1)) s

separator_inside : (xs ys : Text) → no_separator (xs ++ (1 ∷ ys)) ≡ false
unfolding no_separator
separator_inside [] ys = refl
separator_inside (x ∷ xs) ys = ground (arith, separator_inside xs ys)

tail_eq : {a b : ℕ} {s t : Text} → (a ∷ s) ≡ (b ∷ t) → (a ≡ b) × (s ≡ t)
tail_eq h = (ground arith, ground arith)

-- The last separator of a key divides it.
last_separator :
    (xs ys a b : Text)
    → no_separator a ≡ true
    → no_separator b ≡ true
    → xs ++ (1 ∷ a) ≡ ys ++ (1 ∷ b)
    → (xs ≡ ys) × (a ≡ b)
last_separator [] [] a b h k e = (refl, (tail_eq e).1)
last_separator [] (y ∷ ys) a b h k e =
    absurd (let t = (tail_eq e).1 in let u = separator_inside ys b in cc)
last_separator (x ∷ xs) [] a b h k e =
    absurd (let t = (tail_eq e).1 in let u = separator_inside xs a in cc)
last_separator (x ∷ xs) (y ∷ ys) a b h k e =
    let (p, q) = last_separator xs ys a b h k (tail_eq e).1 in
    (subst (λ t. x ∷ xs ≡ t ∷ ys) (tail_eq e).0 (ap (λ t. x ∷ t) p), q)

-- What the standard library's printer of addresses gives: different texts for different addresses,
-- with no control character in them.
pub record PrinterLaws (x : Externals) : Type 0 where
  pub show_ip-no_separator : (ip : IpAddr) → no_separator (x.show_ip ip) ≡ true
  pub show_ip_inj : (a b : IpAddr) → x.show_ip a ≡ x.show_ip b → a ≡ b

-- the capacity that the cache of counters is built with
abbrev pub max_capacity : ℕ
max_capacity = 1_000_000

-- the cache after some insertions, the last one first
unfoldable pub built : (x : Externals) → List (Text × Counter × ℕ) → x.Cache
built x [] = x.new_cache
built x ((k, v, at) ∷ ins) = x.cache_insert (built x ins) k v at

-- What moka's cache gives while fewer values were inserted than it has room for, so that none is
-- evicted: within its time to live an inserted value is found under its key, the values of other
-- keys are as they were, and a new cache has none.
pub record CacheLaws (x : Externals) : Type 0 where
  pub get-new : (k : Text) (later : ℕ) → x.cache_get x.new_cache k later ≡ none
  pub get-insert :
      (ins : List (Text × Counter × ℕ)) (k : Text) (v : Counter) (now later : ℕ)
      → length ins < max_capacity
      → ltb later (now + v.ttl) ≡ true
      → x.cache_get (x.cache_insert (built x ins) k v now) k later ≡ some v
  pub get-insert_other :
      (ins : List (Text × Counter × ℕ)) (k other : Text) (v : Counter) (now later : ℕ)
      → length ins < max_capacity
      → k ≢ other
      → x.cache_get (x.cache_insert (built x ins) k v now) other later
        ≡ x.cache_get (built x ins) other later

-- the count that is read
abbrev count_of : Option Counter → ℕ
count_of none = 0
count_of (some k) = k.count

-- One call of `incr`.
pub record Call : Type 0 where
  pub name : Text
  pub ip : IpAddr
  pub amount : ℕ
  pub window_secs : ℕ
  pub at : ℕ

abbrev same_ip : IpAddr → IpAddr → Bool
same_ip (v4 n) (v4 m) = n == m
same_ip (v6 n) (v6 m) = n == m
same_ip _ _ = false

same_ip_sound : (a b : IpAddr) → same_ip a b ≡ true → a ≡ b
same_ip_sound (v4 n) (v4 m) e = ap v4 (ground arith)
same_ip_sound (v6 n) (v6 m) e = ap v6 (ground arith)
same_ip_sound (v4 n) (v6 m) e = absurd (cc)
same_ip_sound (v6 n) (v4 m) e = absurd (cc)

same_ip_refl : (a : IpAddr) → same_ip a a ≡ true
same_ip_refl (v4 n) = ground arith
same_ip_refl (v6 n) = ground arith

-- a call for the counter of this name and address
abbrev pub is_own : Text → IpAddr → Call → Bool
is_own name ip c = eq_text c.name name && same_ip c.ip ip

-- The amounts of the counter's own calls, added up to at most the greatest 64-bit number.
unfoldable pub total : Text → IpAddr → List Call → ℕ
total name ip [] = 0
total name ip (c ∷ cs) =
    if is_own name ip c
    then saturating_add u64_max (total name ip cs) c.amount
    else total name ip cs

-- A call in the past; if it is for the counter, the time is in its window.
pub record IsRecent (name : Text) (ip : IpAddr) (later : ℕ) (c : Call) : Type 0 where
  pub past : c.at ≤ later
  pub within : not (is_own name ip c) || ltb later (c.at + c.window_secs) ≡ true

own-same :
    (name : Text) (ip : IpAddr) (c : Call) → is_own name ip c ≡ true → (c.name ≡ name) × (c.ip ≡ ip)
own-same name ip c e =
    (eq_text_sound c.name name (ground arith), same_ip_sound c.ip ip (ground arith))

other-apart :
    (name : Text) (ip : IpAddr) (c : Call)
    → is_own name ip c ≡ false
    → (c.name ≢ name) ⊎ (c.ip ≢ ip)
other-apart name ip c e = elim (Bool-cases (eq_text c.name name)) [
  | inl n ↦ inr (λ same.
      let own : same_ip c.ip ip ≡ true = ap (λ a. same_ip c.ip a) (sym same) ∙ same_ip_refl c.ip in
      let apart : true ≡ false = ground (arith, n, own, e) in cc)
  | inr n ↦ inl (λ same.
      let own : eq_text c.name name ≡ true =
        ap (λ a. eq_text c.name a) (sym same) ∙ eq_text_refl c.name in
      let apart : true ≡ false = sym own ∙ n in cc)
]

module _ (x : Externals) (printer : PrinterLaws x) where
  key_inj :
      (name name' : Text) (ip ip' : IpAddr)
      → key x name ip ≡ key x name' ip'
      → (name ≡ name') × (ip ≡ ip')
  unfolding key
  key_inj name name' ip ip' e =
      let (n, i) =
        last_separator name name' _ _ (printer.show_ip-no_separator ip)
          (printer.show_ip-no_separator ip') e in
      (n, printer.show_ip_inj ip ip' i)

  distinct_keys :
      (name name' : Text) (ip ip' : IpAddr)
      → (name ≢ name') ⊎ (ip ≢ ip')
      → key x name ip ≢ key x name' ip'
  distinct_keys name name' ip ip' (inl d) e = d (key_inj name name' ip ip' e).0
  distinct_keys name name' ip ip' (inr d) e = d (key_inj name name' ip ip' e).1

  -- the cache after some calls of `incr`, the last one first
  unfoldable pub after : List Call → x.Cache
  after [] = x.new_cache
  after (c ∷ cs) = (incr x (after cs) c.name c.ip c.amount c.window_secs c.at).1

  after-built :
      (cs : List Call)
      → (ins : List (Text × Counter × ℕ)) × (after cs ≡ built x ins) × (length ins ≡ length cs)
  unfolding after built incr
  after-built [] = ([], refl, refl)
  after-built (c ∷ cs) =
      let (ins, e, l) = after-built cs in
      (_ ∷ ins, ap (λ t. (incr x t c.name c.ip c.amount c.window_secs c.at).1) e, ap suc l)

  module _ (laws : CacheLaws x) where
    get_counter-own :
        (cs : List Call) (c : Call) (t : ℕ)
        → length cs < max_capacity
        → ltb t (c.at + c.window_secs) ≡ true
        → get_counter x (after (c ∷ cs)) c.name c.ip t
          ≡ saturating_add u64_max (get_counter x (after cs) c.name c.ip c.at) c.amount
    unfolding get_counter incr after
    get_counter-own cs c t room within =
        let (ins, e, l) = after-built cs in
        let k = key x c.name c.ip in
        let v : Counter = record {
          count = saturating_add u64_max (get_counter x (after cs) c.name c.ip c.at) c.amount;
          ttl = at_least c.window_secs 1;
        } in
        let got : x.cache_get (x.cache_insert (after cs) k v c.at) k t ≡ some v =
          rw e (laws.get-insert ins k _ c.at t (omega (arith, l)) (ground arith)) in
        ap count_of got

    own_named :
        (cs : List Call) (c : Call) (name : Text) (ip : IpAddr) (t : ℕ)
        → c.name ≡ name
        → c.ip ≡ ip
        → length cs < max_capacity
        → ltb t (c.at + c.window_secs) ≡ true
        → get_counter x (after (c ∷ cs)) name ip t
          ≡ saturating_add u64_max (get_counter x (after cs) name ip c.at) c.amount
    own_named cs c name ip t n i room within = rw (← n, ← i) (get_counter-own cs c t room within)

    get_counter-other :
        (cs : List Call) (c : Call) (name : Text) (ip : IpAddr) (t : ℕ)
        → length cs < max_capacity
        → (c.name ≢ name) ⊎ (c.ip ≢ ip)
        → get_counter x (after (c ∷ cs)) name ip t ≡ get_counter x (after cs) name ip t
    unfolding get_counter incr after
    get_counter-other cs c name ip t room d =
        let (ins, e, l) = after-built cs in
        let k = key x c.name c.ip in
        let v : Counter = record {
          count = saturating_add u64_max (get_counter x (after cs) c.name c.ip c.at) c.amount;
          ttl = at_least c.window_secs 1;
        } in
        let kept : x.cache_get (x.cache_insert (after cs) k v c.at) (key x name ip) t
            ≡ x.cache_get (after cs) (key x name ip) t =
          rw e (
            laws.get-insert_other ins k (key x name ip) _ c.at t (omega (arith, l))
              (distinct_keys c.name name c.ip ip d)) in
        ap count_of kept

    -- After any calls of `incr`, by whatever rules and clients, a counter is the sum of the amounts of its
    -- own calls, at most the greatest 64-bit number, and no other call matters, even if a name has the
    -- character in it that keys separate names and addresses with: at every time up to one that is in
    -- the window of each of its own calls, and with no more calls than the cache has room for.
    pub after-total :
        (cs : List Call) (name : Text) (ip : IpAddr) (later : ℕ)
        → length cs ≤ max_capacity
        → All (IsRecent name ip later) cs
        → (t : ℕ) → t ≤ later
        → get_counter x (after cs) name ip t ≡ total name ip cs
    unfolding after get_counter total
    after-total [] name ip later room recent t h = ap count_of (laws.get-new (key x name ip) t)
    after-total (c ∷ cs) name ip later room (recent, others) t h =
        elim (Bool-cases (is_own name ip c)) [
          | inl e ↦
              let (n, i) = own-same name ip c e in
              let within' : ltb t (c.at + c.window_secs) ≡ true =
                ground (arith, recent.within, e) in
              let before = after-total cs name ip later (omega arith) others c.at recent.past in
              rw (e, total)
                (own_named cs c name ip t n i (omega arith) within'
                  ∙ ap (λ k. saturating_add u64_max k c.amount) before)
          | inr e ↦
              rw (e, total)
                (get_counter-other cs c name ip t (omega arith) (other-apart name ip c e)
                  ∙ after-total cs name ip later (omega arith) others t h)
        ]
