-- ===== src/Bans/Commands.antt =====
-- crates/budu/src/ban.rs, crates/budu-reputation/src/lib.rs: the commands as a whole, and the entries of the
-- text that they leave.
use budu_waf.Prelude.{
  any-append_right, ℕ, ◌≤◌, ◌≡◌, refl, true, false, not, Option, none, some, List, [], ◌∷◌, ◌++◌,
  Text, all, arith, trim, is_empty,
}
use budu_waf.Common.{IpAddr}
use budu_waf.External.{Externals}
use budu_waf.Reputation.{BlockEntry, parse_target, contains, matches, active}
use budu_waf.Bans.{Disk, no_fault, until_of, finish_ban, ban, finish_unban, unban}
use budu_waf.Bans.Entry.{has_ended, IsPrinted}
use budu_waf.Bans.Edits.{is_clean, others, listed, until_of-in_range}
use budu_waf.Bans.Listing.{in_force, finish_ban-listed, finish_unban-listed}

module _ (x : Externals) (tmp_of : Text → Text) (file target : Text) where
  module _ (net : x.Net) (disk : Disk) (target_parses : parse_target x target ≡ some net)
      (configured : is_empty (trim file) ≡ false) (clean : is_clean (disk (trim file)) ≡ true) where
    pub ban-finish_ban :
        (duration : Option Text) (now : ℕ)
        → ban x tmp_of file target duration now no_fault disk
          ≡ finish_ban x disk no_fault
              (tmp_of (trim file))
              (trim file)
              net
              (until_of x duration now)
    unfolding ban
    ban-finish_ban duration now = rw (target_parses, ban) (rw configured refl)

    pub unban-finish_unban :
        unban x tmp_of file target no_fault disk
        ≡ finish_unban x disk no_fault (tmp_of (trim file)) (trim file) net
    unfolding unban
    unban-finish_unban = rw (target_parses, unban) (rw configured refl)

    -- the entries of the list's text after a ban
    pub ban-listed :
        (duration : Option Text) (now : ℕ) (until : Option ℕ)
        → IsPrinted x net
        → until_of x duration now ≡ some until
        → (later : ℕ)
        → ((ban x tmp_of file target duration now no_fault disk).1 ≡ none)
          × (listed x (ban x tmp_of file target duration now no_fault disk).0 (trim file) later
              ≡ others x net (listed x disk (trim file) later) ++ in_force x net until later)
    ban-listed duration now until p e later =
        rw (ban-finish_ban duration now, e)
          (finish_ban-listed x disk (tmp_of (trim file)) (trim file) net until later clean p
            (until_of-in_range x duration now until e))

    -- the entries of the list's text after a ban is lifted
    pub unban-listed :
        (later : ℕ)
        → ((unban x tmp_of file target no_fault disk).1 ≡ none)
          × (listed x (unban x tmp_of file target no_fault disk).0 (trim file) later
              ≡ others x net (listed x disk (trim file) later))
    unban-listed later =
        rw unban-finish_unban
          (finish_unban-listed x disk (tmp_of (trim file)) (trim file) net later clean)

    pub no_others :
        (es : List (BlockEntry x)) → all (λ e. not (x.net_eq e.net net)) (others x net es) ≡ true
    no_others [] = refl
    no_others (e ∷ es) = ground (arith, no_others es)

    in_force-matches :
        (until : Option ℕ) (ip : IpAddr) (later : ℕ)
        → has_ended until later ≡ false
        → x.net_contains net ip ≡ true
        → matches x (record { net = net; until = until }) ip later ≡ true
    unfolding matches active
    in_force-matches none ip later h k = k
    in_force-matches (some until) ip later h k = ground arith

    not_yet :
        (until : Option ℕ) (load later : ℕ)
        → load ≤ later
        → has_ended until later ≡ false
        → has_ended until load ≡ false
    not_yet none load later h e = refl
    not_yet (some until) load later h e = ground arith

    -- as long as a ban holds, the stage finds the network in the entries of the list's text
    pub ban-contains :
        (duration : Option Text) (now : ℕ) (until : Option ℕ)
        → IsPrinted x net
        → until_of x duration now ≡ some until
        → (load later : ℕ) (ip : IpAddr) → load ≤ later
        → has_ended until later ≡ false
        → x.net_contains net ip ≡ true
        → contains x
            (listed x (ban x tmp_of file target duration now no_fault disk).0 (trim file) load)
            ip
            later
          ≡ true
    unfolding contains matches active
    ban-contains duration now until p e load later ip order h k =
        let holds : matches x (record { net = net; until = until }) ip later ≡ true =
          in_force-matches until ip later h k in
        let after = (ban-listed duration now until p e load).1 in
        rw (after, not_yet until load later order h)
          (any-append_right _ (others x net (listed x disk (trim file) load)) _ (rw holds refl))
