-- ===== src/Examples/Toy.antt =====
-- Concrete external operations: header maps and caches as association lists, networks of one address,
-- expressions that are substrings.
use budu_waf.Prelude.{
  to_lower, ℕ, suc, ◌+◌, ◌-◌, ◌≡◌, ◌≢◌, refl, sym, ap, ◌∙◌, Bool, true, false, ◌&&◌, Option, none,
  some, List, [], ◌∷◌, Text, Bytes, lit, eq_text, eq_text_refl, eq_text_sound, length, map,
  contains, get_elem?, if◌then◌else◌, ltb, ◌==◌, show_ℕ, arith, Bool-cases, inl, inr, leb,
}
use budu_waf.Common.{IpAddr, v4, v6}
use budu_waf.External.{Externals, Counter}
use budu_waf.RateLimit.Counters.{PrinterLaws, CacheLaws, no_separator}
use budu_waf.Proxy.Model.{Http, full, stream, replied}
use budu_waf.Proxy.HopByHop.{same_name, HeaderLaws}
use budu_waf.Signatures.Hits.{AutomataLaws}

abbrev pub Map : Type 0
Map = List (Text × Bytes)

abbrev pub find : Map → Text → Option Bytes
find [] n = none
find ((k, v) ∷ m) n = if same_name k n then some v else find m n

abbrev pub erase : Map → Text → Map
erase [] n = []
erase ((k, v) ∷ m) n = if same_name k n then erase m n else (k, v) ∷ erase m n

-- an address as a text: its kind and its number
abbrev pub print : IpAddr → Text
print (v4 n) = 52 ∷ (n + 2) ∷ []
print (v6 n) = 54 ∷ (n + 2) ∷ []

abbrev pub same_ip : IpAddr → IpAddr → Bool
same_ip a b = eq_text (print a) (print b)

abbrev pub scan_ip : Text → Option IpAddr
scan_ip (c ∷ n ∷ []) = if c == 52 then some (v4 (n - 2)) else none
scan_ip _ = none

abbrev pub Entries : Type 0
Entries = List (Text × Counter × ℕ)

abbrev pub look : Entries → Text → ℕ → Option Counter
look [] k now = none
look ((key, v, at) ∷ es) k now =
    if eq_text key k then (if ltb now (at + v.ttl) then some v else none) else look es k now

abbrev pub first_index : ℕ → List Text → Text → Option ℕ
first_index i [] h = none
first_index i (l ∷ ls) h = if contains h l then some i else first_index (suc i) ls h

abbrev pub indices : ℕ → List Text → Text → List ℕ
indices i [] h = []
indices i (l ∷ ls) h = if contains h l then i ∷ indices (suc i) ls h else indices (suc i) ls h

-- one bucket for all: the number of tokens that are left
abbrev pub toy : Externals
toy = record {
  Headers = Map;
  get = find;
  to_str = λ v. some v;
  entries = λ m. m;
  names = λ m. map (λ e. e.0) m;
  count = length;
  remove = erase;
  insert = λ m n v. (n, v) ∷ m;
  status_ok = λ s. leb 100 s && leb s 999;
  Net = IpAddr;
  net_contains = same_ip;
  net_eq = same_ip;
  parse_net = scan_ip;
  parse_ip = scan_ip;
  show_ip = print;
  show_net = print;
  host_net = λ ip. ip;
  Regex = Text;
  build_regex = λ t. some t;
  is_match = λ r t. contains t r;
  regex_set_ok = λ rs. true;
  regex_set_matches = indices 0;
  literals_ok = λ ls. true;
  find_literal = first_index 0;
  country_of = λ ip. none;
  utf8_lossy = λ b. b;
  parse_json = λ b. none;
  libinjection = false;
  detect_sqli = λ b. false;
  detect_xss = λ b. false;
  Cache = Entries;
  new_cache = [];
  cache_get = look;
  cache_insert = λ c k v now. (k, v, now) ∷ c;
  cache_count = length;
  Buckets = ℕ;
  take_token = λ rps burst ttl b ip now. if ltb 0 b then (b - 1, none) else (0, some (2, 5));
  bucket_count = λ b. b;
}

abbrev pub toy_http : Http toy
toy_http = record {
  Uri = Text;
  uri_path = λ u. u;
  uri_query = λ u. none;
  uri_scheme = λ u. some (lit "http");
  uri_authority = λ u. some (lit "upstream");
  uri_path_and_query = λ u. some u;
  build_uri = λ scheme authority pq. some pq;
  header_name = λ n. some n;
  header_value = λ v. some v;
  number_value = show_ℕ;
  no_headers = [];
  collect_limited = λ body max. elim body [
    | full b ↦ (if leb (length b) max then some b else none)
    | stream fs ↦ some []
  ];
  send = λ timeout req. replied (record { status = 200; headers = []; body = full (lit "ok") });
}

same_name_trans : (k n o : Text) → same_name k n ≡ true → same_name n o ≡ same_name k o
same_name_trans k n o e = ap (λ t. eq_text t (to_lower o)) (sym (eq_text_sound _ _ e))

-- names that are the same as one that is removed
find-erase : (m : Map) (n o : Text) → same_name n o ≡ true → find (erase m n) o ≡ none
find-erase [] n o h = refl
find-erase ((k, v) ∷ m) n o h = elim (Bool-cases (same_name k n)) [
  | inl e ↦ ap (λ b. find (if b then erase m n else (k, v) ∷ erase m n) o) e ∙ find-erase m n o h
  | inr e ↦
      let other : same_name k o ≡ false =
        ap (λ t. eq_text (to_lower k) t) (sym (eq_text_sound _ _ h)) ∙ e in
      ap (λ b. find (if b then erase m n else (k, v) ∷ erase m n) o) e
      ∙ (ap (λ b. if b then some v else find (erase m n) o) other ∙ find-erase m n o h)
]

find-erase_other : (m : Map) (n o : Text) → same_name n o ≡ false → find (erase m n) o ≡ find m o
find-erase_other [] n o h = refl
find-erase_other ((k, v) ∷ m) n o h = elim (Bool-cases (same_name k n)) [
  | inl e ↦
      let other : same_name k o ≡ false = sym (same_name_trans k n o e) ∙ h in
      ap (λ b. find (if b then erase m n else (k, v) ∷ erase m n) o) e
      ∙ (find-erase_other m n o h ∙ sym (ap (λ b. if b then some v else find m o) other))
  | inr e ↦
      ap (λ b. find (if b then erase m n else (k, v) ∷ erase m n) o) e
      ∙ ap (λ t. if same_name k o then some v else t) (find-erase_other m n o h)
]

text_differs : (s t : Text) → s ≢ t → eq_text s t ≡ false
text_differs s t d = elim (Bool-cases (eq_text s t)) [
  | inl e ↦ absurd (d (eq_text_sound s t e))
  | inr e ↦ e
]

first_index-found :
    (k : ℕ) (ls : List Text) (h : Text) (i : ℕ)
    → first_index k ls h ≡ some i
    → (d : ℕ) × (i ≡ k + d) × ((t : Text) × (get_elem? ls d ≡ some t) × (contains h t ≡ true))
first_index-found k [] h i e = absurd (cc)
first_index-found k (l ∷ ls) h i e = elim (Bool-cases (contains h l)) [
  | inl c ↦ (0, ground arith, (l, refl, c))
  | inr c ↦
      let (d, q, f) = first_index-found (suc k) ls h i (ground arith) in
      (suc d, omega (arith, q), f)
]

indices-found :
    (k : ℕ) (ls : List Text) (h : Text) (i : ℕ) (is : List ℕ)
    → indices k ls h ≡ i ∷ is
    → (d : ℕ) × (i ≡ k + d) × ((t : Text) × (get_elem? ls d ≡ some t) × (contains h t ≡ true))
indices-found k [] h i is e = absurd (cc)
indices-found k (l ∷ ls) h i is e = elim (Bool-cases (contains h l)) [
  | inl c ↦ (0, ground arith, (l, refl, c))
  | inr c ↦
      let (d, q, f) = indices-found (suc k) ls h i is (ground arith) in (suc d, omega (arith, q), f)
]

pub toy-AutomataLaws : AutomataLaws toy
toy-AutomataLaws = record {
  literal = λ pats h i e.
      let (d, q, (t, g, c)) = first_index-found 0 pats h i e in
      let e' : i ≡ d = omega (arith, q) in (t, rw e' g, c);
  regex = λ pats h i is e.
      let (d, q, (t, g, c)) = indices-found 0 pats h i is e in
      let e' : i ≡ d = omega (arith, q) in (t, rw e' g, (t, refl, c));
}

pub toy-HeaderLaws : HeaderLaws toy
toy-HeaderLaws = record {
  get-remove = find-erase;
  get-remove_other = find-erase_other;
  get-insert = λ t n m v p h. rw h;
  get-insert_other = λ t n m v p h. rw h;
}

pub toy-CacheLaws : CacheLaws toy
toy-CacheLaws = record {
  get-new = λ k later. refl;
  get-insert = λ ins k v now later room h. rw (eq_text_refl k, h);
  get-insert_other = λ ins k other v now later room h. rw (text_differs k other h);
}

print_inj : (a b : IpAddr) → print a ≡ print b → a ≡ b
print_inj (v4 n) (v4 m) h = ap v4 (ground arith)
print_inj (v6 n) (v6 m) h = ap v6 (ground arith)
print_inj (v4 n) (v6 m) h = absurd (ground arith)
print_inj (v6 n) (v4 m) h = absurd (ground arith)

print-no_separator : (ip : IpAddr) → no_separator (print ip) ≡ true
unfolding no_separator
print-no_separator (v4 n) = ground arith
print-no_separator (v6 n) = ground arith

pub toy-PrinterLaws : PrinterLaws toy
toy-PrinterLaws = record { show_ip-no_separator = print-no_separator; show_ip_inj = print_inj }
