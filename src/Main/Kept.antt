-- ===== src/Main/Kept.antt =====
-- Clients that come and go, and new addresses, keep the tables valid (src/main-proc.c,
-- src/proc-search.c).
use ocserv.Prelude.{
  ℕ, ◌+◌, ◌≡◌, refl, sym, ap, ◌∙◌, inl, inr, Bool, true, false, Option, none, some, List, [], ◌∷◌,
  Bytes, ◌==◌, if◌then◌else◌, ltb, arith, length, Bool-cases, if_split,
}
use ocserv.Table.{count, sweep}
use ocserv.Main.Index.{Index}
use ocserv.Main.Proc.{Proc, Server, put}
use ocserv.Main.Search.{
  rehash_ip, rehash_dtls_ip, rehash_dtls_id, rehash_sid, erase, proc_table_del,
}
use ocserv.Main.Clients.{new_proc, remove_proc}
use ocserv.Main.Sound.{
  same_number, IsSound, put-IsSound, erase-IsSound, unheld-IsAbsent, erase-IsAbsent,
}
use ocserv.Main.Valid.{tabled, on_dtls, present, IsValid}

count-sweep_other :
    (x p : ℕ) (l : List ℕ)
    → count (λ y. y == x) (sweep (λ y. y == p) l) ≡ (if x == p then 0 else count (λ y. y == x) l)
unfolding count sweep
count-sweep_other x p [] = ground arith
count-sweep_other x p (z ∷ l) = let rest = count-sweep_other x p l in ground (arith, rest)

length-sweep :
    (p : ℕ) (l : List ℕ) → length (sweep (λ y. y == p) l) + count (λ y. y == p) l ≡ length l
unfolding count sweep
length-sweep p [] = refl
length-sweep p (z ∷ l) = let rest = length-sweep p l in ground (arith, rest)

gone_listed :
    (b : Bool) (n : ℕ) (o : Option Proc)
    → n ≡ present o
    → (if b then 0 else n) ≡ present (if b then none else o)
gone_listed true n o e = refl
gone_listed false n o e = e

fresh_listed :
    (x p n : ℕ) (q : Proc) (procs : ℕ → Option Proc)
    → n ≡ present (procs x)
    → procs p ≡ none
    → (if p == x then 1 else 0) + n ≡ present (put p (some q) procs x)
fresh_listed x p n q procs e free = elim (Bool-cases (x == p)) [
  | inl hit ↦
      (let none_there = e ∙ ap present (ap procs (same_number x p hit) ∙ free) in
        let one : (if p == x then 1 else 0) + n ≡ 1 = ground arith in
        one ∙ sym (ap (λ b. present (if b then some q else procs x)) hit))
  | inr other ↦
      (let same : (if p == x then 1 else 0) + n ≡ n = ground arith in
        same ∙ e ∙ sym (ap (λ b. present (if b then some q else procs x)) other))
]

module _ (hash : Bytes → ℕ) (ix : Index) where
  pub new_proc-IsValid :
      (s : Server ix) (p : ℕ) (q : Proc)
      → IsValid hash ix tabled s
      → s.procs p ≡ none
      → IsValid hash ix tabled (new_proc ix (some p) q s)
  unfolding new_proc count
  new_proc-IsValid s p q v free = record {
    listed = λ x. fresh_listed x p (count (λ y. y == x) s.proc_list) q s.procs (v.listed x) free;
    clients = omega (arith, v.clients);
    ip =
        put-IsSound ix (rehash_ip hash) tabled s.db_ip s.procs p (some q) v.ip
          (unheld-IsAbsent ix (rehash_ip hash) tabled s.db_ip s.procs p q v.ip (inl free));
    dtls_ip =
        put-IsSound ix (rehash_dtls_ip hash) on_dtls s.db_dtls_ip s.procs p (some q) v.dtls_ip (
          unheld-IsAbsent ix (rehash_dtls_ip hash) on_dtls s.db_dtls_ip s.procs p q v.dtls_ip
            (inl free));
    dtls_id =
        put-IsSound ix (rehash_dtls_id hash) tabled s.db_dtls_id s.procs p (some q) v.dtls_id (
          unheld-IsAbsent ix (rehash_dtls_id hash) tabled s.db_dtls_id s.procs p q v.dtls_id
            (inl free));
    sid =
        put-IsSound ix (rehash_sid hash) tabled s.db_sid s.procs p (some q) v.sid
          (unheld-IsAbsent ix (rehash_sid hash) tabled s.db_sid s.procs p q v.sid (inl free));
  }

  -- A table without the client that goes.
  gone-IsSound :
      (key : Proc → ℕ) (held : ℕ → Proc → Bool) (t : ix.Filed) (s : Server ix) (p : ℕ) (q : Proc)
      → IsSound ix key held t s.procs
      → s.procs p ≡ some q
      → IsSound ix key held (erase hash ix (key q) p t) (put p none s.procs)
  gone-IsSound key held t s p q sound here =
      put-IsSound ix key held (erase hash ix (key q) p t) s.procs p none
        (erase-IsSound ix key held t s.procs p (key q) sound)
        (erase-IsAbsent ix key held t s.procs p q sound here)

  pub remove_proc-IsValid :
      (kills quit : Bool) (script : Option Bool) (s : Server ix) (p : ℕ) (q : Proc)
      → IsValid hash ix tabled s
      → s.procs p ≡ some q
      → IsValid hash ix tabled (remove_proc ix hash kills quit script p q s)
  unfolding remove_proc proc_table_del
  remove_proc-IsValid kills quit script s p q v here = record {
    listed = λ x.
        count-sweep_other x p s.proc_list
        ∙ gone_listed (x == p) (count (λ y. y == x) s.proc_list) (s.procs x) (v.listed x);
    clients =
        (let one = v.listed p ∙ ap present here in
          let left = length-sweep p s.proc_list in ground (arith, v.clients, one, left));
    ip = gone-IsSound (rehash_ip hash) tabled s.db_ip s p q v.ip here;
    dtls_ip =
        if_split (λ t. IsSound ix (rehash_dtls_ip hash) on_dtls t (put p none s.procs))
          (ltb 0 q.dtls_remote_addr_len) _ _
          (λ on. gone-IsSound (rehash_dtls_ip hash) on_dtls s.db_dtls_ip s p q v.dtls_ip here)
          (λ off.
            put-IsSound ix (rehash_dtls_ip hash) on_dtls s.db_dtls_ip s.procs p none v.dtls_ip (
              unheld-IsAbsent ix (rehash_dtls_ip hash) on_dtls s.db_dtls_ip s.procs p q v.dtls_ip
                (inr (here, off))));
    dtls_id = gone-IsSound (rehash_dtls_id hash) tabled s.db_dtls_id s p q v.dtls_id here;
    sid = gone-IsSound (rehash_sid hash) tabled s.db_sid s p q v.sid here;
  }
