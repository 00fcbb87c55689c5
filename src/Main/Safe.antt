-- ===== src/Main/Safe.antt =====
-- What the tables of clients are good for (src/proc-search.c, src/main-proc.c).
use ocserv.Prelude.{ℕ, ◌≡◌, ap, ◌∙◌, Bool, Option, none, some, List, Bytes, ◌==◌}
use ocserv.Table.{count}
use ocserv.Main.Index.{Index}
use ocserv.Main.Proc.{Proc, Server}
use ocserv.Main.Search.{rehash_ip, rehash_dtls_ip, rehash_dtls_id, rehash_sid}
use ocserv.Main.Sound.{free-IsAbsent}
use ocserv.Main.Valid.{tabled, on_dtls, present, IsValid, put_here}
use ocserv.Main.Clients.{remove_proc}
use ocserv.Main.Step.{Message, run, start}
use ocserv.Main.Kept.{remove_proc-IsValid}
use ocserv.Main.Run.{run-Valid}

module _ (hash : Bytes → ℕ) (ix : Index) where
  -- Nothing refers to the memory at this pointer.
  pub record IsForgotten (p : ℕ) (s : Server ix) : Type 0 where
    pub nowhere : s.procs p ≡ none
    pub not_listed : count (λ x. x == p) s.proc_list ≡ 0
    pub not_ip : (h : ℕ) → ix.filed h p s.db_ip ≡ 0
    pub not_dtls_ip : (h : ℕ) → ix.filed h p s.db_dtls_ip ≡ 0
    pub not_dtls_id : (h : ℕ) → ix.filed h p s.db_dtls_id ≡ 0
    pub not_sid : (h : ℕ) → ix.filed h p s.db_sid ≡ 0

  forgotten :
      (p : ℕ) (s : Server ix) → IsValid hash ix tabled s → s.procs p ≡ none → IsForgotten p s
  forgotten p s v free = record {
    nowhere = free;
    not_listed = v.listed p ∙ ap present free;
    not_ip = free-IsAbsent ix (rehash_ip hash) tabled s.db_ip s.procs p v.ip free;
    not_dtls_ip =
        free-IsAbsent ix (rehash_dtls_ip hash) on_dtls s.db_dtls_ip s.procs p v.dtls_ip free;
    not_dtls_id =
        free-IsAbsent ix (rehash_dtls_id hash) tabled s.db_dtls_id s.procs p v.dtls_id free;
    not_sid = free-IsAbsent ix (rehash_sid hash) tabled s.db_sid s.procs p v.sid free;
  }

  -- After every history, remove_proc leaves nothing that refers to the memory of the client: it does
  -- not stand in the list, and in none of the four tables, under whatever hash value.
  pub remove_proc-IsForgotten :
      (instances : ℕ) (ms : List Message) (p : ℕ) (q : Proc) (kills quit : Bool)
      (script : Option Bool)
      → (run hash ix instances ms (start hash ix)).procs p ≡ some q
      → IsForgotten p
          (remove_proc ix hash kills quit script p q (run hash ix instances ms (start hash ix)))
  unfolding remove_proc
  remove_proc-IsForgotten instances ms p q kills quit script here =
      let s = run hash ix instances ms (start hash ix) in
      let v =
        remove_proc-IsValid hash ix kills quit script s p q (run-Valid hash ix instances ms) here in
      forgotten p (remove_proc ix hash kills quit script p q s) v (put_here p none s.procs)
