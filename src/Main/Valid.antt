-- ===== src/Main/Valid.antt =====
-- What holds of the clients and their tables, and what keeps it (src/main-proc.c,
-- src/proc-search.c).
use ocserv.Prelude.{
  ℕ, ◌%◌, ◌^◌, ◌≡◌, sym, ap, ◌∙◌, inl, inr, Bool, true, false, not, ◌||◌, Option, none, some, Bytes,
  ◌==◌, if◌then◌else◌, ltb, arith, length, Bool-cases,
}
use ocserv.Table.{count}
use ocserv.SecMod.Entry.{inactive, status_eq}
use ocserv.Main.Index.{Index}
use ocserv.Main.Proc.{Proc, Server, put}
use ocserv.Main.Search.{rehash_ip, rehash_dtls_ip, rehash_dtls_id, rehash_sid}
use ocserv.Main.Sound.{
  same_number, IsSound, IsAbsent, same-IsSound, put-IsSound, weaken-IsSound, settle-IsSound,
}

-- A client that asked for a session.
abbrev pub tabled : ℕ → Proc → Bool
tabled p q = not (status_eq q.status inactive)

-- A client with an address of its own for DTLS.
abbrev pub on_dtls : ℕ → Proc → Bool
on_dtls p q = ltb 0 q.dtls_remote_addr_len

-- Such a client, or the one that is asking now.
abbrev pub pending : ℕ → ℕ → Proc → Bool
pending p x q = (x == p) || tabled x q

abbrev pub present : Option Proc → ℕ
present none = 0
present (some q) = 1

pub put_here : (p : ℕ) (o : Option Proc) (procs : ℕ → Option Proc) → put p o procs p ≡ o
put_here p o procs = ground arith

module _ (hash : Bytes → ℕ) (ix : Index) where
  -- The list has each client once, and active_clients is their number; each table holds clients
  -- only, under their present keys, and each of them once. `held` says which clients three of the
  -- tables may hold; the fourth holds clients with an address for DTLS.
  pub record IsValid (held : ℕ → Proc → Bool) (s : Server ix) : Type 0 where
    pub listed : (p : ℕ) → count (λ x. x == p) s.proc_list ≡ present (s.procs p)
    pub clients : s.active_clients ≡ length s.proc_list % 2 ^ 32
    pub ip : IsSound ix (rehash_ip hash) held s.db_ip s.procs
    pub dtls_ip : IsSound ix (rehash_dtls_ip hash) on_dtls s.db_dtls_ip s.procs
    pub dtls_id : IsSound ix (rehash_dtls_id hash) held s.db_dtls_id s.procs
    pub sid : IsSound ix (rehash_sid hash) held s.db_sid s.procs

  -- A client with the same keys.
  pub record SameKeys (q r : Proc) : Type 0 where
    pub same_ip : rehash_ip hash r ≡ rehash_ip hash q
    pub same_dtls : rehash_dtls_ip hash r ≡ rehash_dtls_ip hash q
    pub same_id : rehash_dtls_id hash r ≡ rehash_dtls_id hash q
    pub same_sid : rehash_sid hash r ≡ rehash_sid hash q
    pub same_len : r.dtls_remote_addr_len ≡ q.dtls_remote_addr_len

  pub listed_put :
      (s : Server ix) (p : ℕ) (q r : Proc)
      → ((x : ℕ) → count (λ y. y == x) s.proc_list ≡ present (s.procs x))
      → s.procs p ≡ some q
      → (x : ℕ) → count (λ y. y == x) s.proc_list ≡ present (put p (some r) s.procs x)
  listed_put s p q r listed here x = elim (Bool-cases (x == p)) [
    | inl hit ↦
        (listed x
          ∙ ap present (ap s.procs (same_number x p hit) ∙ here)
          ∙ sym (ap (λ b. present (if b then some r else s.procs x)) hit))
    | inr other ↦ listed x ∙ sym (ap (λ b. present (if b then some r else s.procs x)) other)
  ]

  pub dtls_kept :
      (s : Server ix) (p : ℕ) (q r : Proc)
      → IsSound ix (rehash_dtls_ip hash) on_dtls s.db_dtls_ip s.procs
      → s.procs p ≡ some q
      → rehash_dtls_ip hash r ≡ rehash_dtls_ip hash q
      → r.dtls_remote_addr_len ≡ q.dtls_remote_addr_len
      → IsSound ix (rehash_dtls_ip hash) on_dtls s.db_dtls_ip (put p (some r) s.procs)
  dtls_kept s p q r sound here same len =
      same-IsSound ix (rehash_dtls_ip hash) on_dtls s.db_dtls_ip s.procs p q r sound here same
        (λ h. ap (λ n. ltb 0 n) len ∙ h)

  -- A client changes, but none of its keys.
  pub put-IsValid :
      (held : ℕ → Proc → Bool) (s : Server ix) (p : ℕ) (q r : Proc)
      → IsValid held s
      → s.procs p ≡ some q
      → SameKeys q r
      → (held p q ≡ true → held p r ≡ true)
      → IsValid held (record s { procs = put p (some r) s.procs })
  put-IsValid held s p q r v here same keeps = record {
    listed = listed_put s p q r v.listed here;
    clients = v.clients;
    ip = same-IsSound ix (rehash_ip hash) held s.db_ip s.procs p q r v.ip here same.same_ip keeps;
    dtls_ip = dtls_kept s p q r v.dtls_ip here same.same_dtls same.same_len;
    dtls_id =
        same-IsSound ix (rehash_dtls_id hash) held s.db_dtls_id s.procs p q r v.dtls_id here
          same.same_id keeps;
    sid =
        same-IsSound ix (rehash_sid hash) held s.db_sid s.procs p q r v.sid here same.same_sid
          keeps;
  }

  -- A client that is in none of three tables changes.
  pub absent-IsValid :
      (held : ℕ → Proc → Bool) (s : Server ix) (p : ℕ) (q r : Proc)
      → IsValid held s
      → s.procs p ≡ some q
      → rehash_dtls_ip hash r ≡ rehash_dtls_ip hash q
      → r.dtls_remote_addr_len ≡ q.dtls_remote_addr_len
      → IsAbsent ix (rehash_ip hash) held p s.db_ip
      → IsAbsent ix (rehash_dtls_id hash) held p s.db_dtls_id
      → IsAbsent ix (rehash_sid hash) held p s.db_sid
      → IsValid held (record s { procs = put p (some r) s.procs })
  absent-IsValid held s p q r v here same len no_ip no_id no_sid = record {
    listed = listed_put s p q r v.listed here;
    clients = v.clients;
    ip = put-IsSound ix (rehash_ip hash) held s.db_ip s.procs p (some r) v.ip no_ip;
    dtls_ip = dtls_kept s p q r v.dtls_ip here same len;
    dtls_id =
        put-IsSound ix (rehash_dtls_id hash) held s.db_dtls_id s.procs p (some r) v.dtls_id no_id;
    sid = put-IsSound ix (rehash_sid hash) held s.db_sid s.procs p (some r) v.sid no_sid;
  }

  -- The client that asked gets its status.
  pub settle-IsValid :
      (s : Server ix) (p : ℕ) (q r : Proc)
      → IsValid (pending p) s
      → s.procs p ≡ some q
      → SameKeys q r
      → tabled p r ≡ true
      → IsValid tabled (record s { procs = put p (some r) s.procs })
  settle-IsValid s p q r v here same may =
      let others : (x : ℕ) (o : Proc)
          → (x == p) ≡ false
          → pending p x o ≡ true
          → tabled x o ≡ true =
        λ x o e h. ground arith in
      record {
        listed = listed_put s p q r v.listed here;
        clients = v.clients;
        ip =
            settle-IsSound ix (rehash_ip hash) (pending p) tabled s.db_ip s.procs p q r v.ip here
              same.same_ip may others;
        dtls_ip = dtls_kept s p q r v.dtls_ip here same.same_dtls same.same_len;
        dtls_id =
            settle-IsSound ix (rehash_dtls_id hash) (pending p) tabled s.db_dtls_id s.procs p q r
              v.dtls_id here same.same_id may others;
        sid =
            settle-IsSound ix (rehash_sid hash) (pending p) tabled s.db_sid s.procs p q r v.sid here
              same.same_sid may others;
      }

  pub pending-IsValid : (s : Server ix) (p : ℕ) → IsValid tabled s → IsValid (pending p) s
  pending-IsValid s p v =
      let more : (x : ℕ) (o : Proc) → tabled x o ≡ true → pending p x o ≡ true =
        λ x o h. ground arith in
      record {
        listed = v.listed;
        clients = v.clients;
        ip = weaken-IsSound ix (rehash_ip hash) tabled (pending p) s.db_ip s.procs v.ip more;
        dtls_ip = v.dtls_ip;
        dtls_id =
            weaken-IsSound ix (rehash_dtls_id hash) tabled (pending p) s.db_dtls_id s.procs
              v.dtls_id more;
        sid = weaken-IsSound ix (rehash_sid hash) tabled (pending p) s.db_sid s.procs v.sid more;
      }
