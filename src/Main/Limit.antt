-- ===== src/Main/Limit.antt =====
-- The limit on the sessions of a user (check_multiple_users, src/main-auth.c).
use ocserv.Prelude.{
  ℕ, suc, ◌+◌, ◌≤◌, ◌<◌, ◌≡◌, ◌↔◌, ◌⊎◌, Bool, true, false, not, ◌&&◌, none, some, List, [], ◌∷◌,
  Bytes, bytes_eq, ◌==◌, leb, arith,
}
use ocserv.Table.{count}
use ocserv.Main.Index.{Index}
use ocserv.Main.Proc.{Proc, Server}
use ocserv.Main.Auth.{runs, count_users, check_multiple_users}

module _ (hash : Bytes → ℕ) (ix : Index) where
  -- Another client of the user, which was not told to end.
  abbrev pub is_other : ℕ → Bytes → Server ix → ℕ → Bool
  is_other p name s x = elim (s.procs x) [
    | none ↦ false
    | some q ↦ not (x == p) && (runs q.pid && (not q.pid_killed && bytes_eq name q.username))
  ]

  count_users_is :
      (p : ℕ) (name : Bytes) (limit entries : ℕ) (s : Server ix) (l : List ℕ)
      → entries ≤ limit
      → count_users hash ix p name limit entries s l
        ≡ leb (entries + count (is_other p name s) l) limit
  unfolding count_users count
  count_users_is p name limit entries s [] le = ground arith
  count_users_is p name limit entries s (x ∷ l) le =
      let rest = count_users_is p name limit entries s l le in
      let more = count_users_is p name limit (suc entries) s l in ground arith

  -- check_multiple_users accepts a client if and only if there is no limit, or the other clients of
  -- the user that are not about to end are less than the limit.
  pub check_multiple_users-count :
      (s : Server ix) (p : ℕ) (q : Proc) (limit : ℕ)
      → (check_multiple_users hash ix p q limit s ≡ true)
        ↔ ((limit ≡ 0) ⊎ (count (is_other p q.username s) s.proc_list < limit))
  unfolding check_multiple_users
  check_multiple_users-count s p q limit =
      let e = count_users_is p q.username limit 1 s s.proc_list in
      (λ h. ground arith, λ h. ground arith)
