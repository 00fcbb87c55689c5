-- ===== src/Main/Moved.antt =====
-- New addresses of clients keep the tables valid (src/proc-search.c).
use ocserv.Prelude.{
  ℕ, ◌≡◌, refl, ap, ◌∙◌, inr, Bool, true, false, not, ◌&&◌, ◌||◌, none, some, Bytes, ◌==◌, arith,
  Option-split, if_split, bytes_eq,
}
use ocserv.SecMod.Entry.{inactive, status_eq}
use ocserv.Main.Index.{Index}
use ocserv.Main.Proc.{Sockaddr, Proc, Server, put}
use ocserv.Main.Search.{
  rehash_ip, rehash_dtls_ip, rehash_dtls_id, rehash_sid, erase, address_bytes, same_sockaddr,
  proc_table_update_ip, drop_dtls, file_again, moved, proc_table_update_dtls_ip, set_dtls,
}
use ocserv.Main.Sound.{
  IsSound, IsAbsent, same-IsSound, put-IsSound, add-IsSound, del-IsSound, held_del, erase-IsSound,
  unheld-IsAbsent, del-IsAbsent, none-IsAbsent, erase-IsAbsent,
}
use ocserv.Main.Valid.{tabled, on_dtls, IsValid, listed_put, dtls_kept, put_here}

module _ (hash : Bytes → ℕ) (ix : Index) where
  file_again-IsValid :
      (s : Server ix) (p : ℕ) (q r : Proc) (removed : Bool)
      → IsValid hash ix tabled s
      → s.procs p ≡ some q
      → IsSound ix (rehash_dtls_ip hash) on_dtls s.db_dtls_ip (put p (some r) s.procs)
      → r.dtls_session_id ≡ q.dtls_session_id
      → r.sid ≡ q.sid
      → r.status ≡ q.status
      → IsAbsent ix (rehash_ip hash) tabled p s.db_ip
      → (removed ≡ true → tabled p q ≡ true)
      → IsValid hash ix tabled (file_again hash ix removed p r s).1
  unfolding file_again
  file_again-IsValid s p q r removed v here dtls id sid status away was =
      let keeps : tabled p q ≡ true → tabled p r ≡ true =
        λ h. ap (λ x. not (status_eq x inactive)) status ∙ h in
      let unfiled : IsSound ix (rehash_ip hash) tabled s.db_ip (put p (some r) s.procs) =
        put-IsSound ix (rehash_ip hash) tabled s.db_ip s.procs p (some r) v.ip away in
      let valid : (t : ix.Filed)
          → IsSound ix (rehash_ip hash) tabled t (put p (some r) s.procs)
          → IsValid hash ix tabled (record s { procs = put p (some r) s.procs; db_ip = t }) =
        λ t sound. record {
          listed = listed_put hash ix s p q r v.listed here;
          clients = v.clients;
          ip = sound;
          dtls_ip = dtls;
          dtls_id =
              same-IsSound ix (rehash_dtls_id hash) tabled s.db_dtls_id s.procs p q r v.dtls_id here
                (ap hash id) keeps;
          sid =
              same-IsSound ix (rehash_sid hash) tabled s.db_sid s.procs p q r v.sid here
                (ap hash sid) keeps;
        } in
      if_split (λ (a : Bool × Server ix). IsValid hash ix tabled a.1) removed _ _
        (λ yes'.
          Option-split
            (λ o.
              IsValid hash ix tabled
                (elim o as (λ x. Bool × Server ix) [
                  | none ↦ (false, record s { procs = put p (some r) s.procs })
                  | some t ↦ (true, record s { procs = put p (some r) s.procs; db_ip = t })
                ]).1)
            (ix.add (rehash_ip hash r) p s.db_ip) (λ full. valid s.db_ip unfiled)
            (λ t added. valid t (
              add-IsSound ix (rehash_ip hash) tabled s.db_ip t (put p (some r) s.procs) p r unfiled
                away (put_here p (some r) s.procs) (keeps (was yes')) added)))
        (λ no'. valid s.db_ip unfiled)

  -- Another table for the addresses, or for those for DTLS.
  with_ip :
      (s : Server ix) (t : ix.Filed)
      → IsValid hash ix tabled s
      → IsSound ix (rehash_ip hash) tabled t s.procs
      → IsValid hash ix tabled (record s { db_ip = t })
  with_ip s t v sound = record {
    listed = v.listed;
    clients = v.clients;
    ip = sound;
    dtls_ip = v.dtls_ip;
    dtls_id = v.dtls_id;
    sid = v.sid;
  }

  with_dtls_ip :
      (s : Server ix) (t : ix.Filed)
      → IsValid hash ix tabled s
      → IsSound ix (rehash_dtls_ip hash) on_dtls t s.procs
      → IsValid hash ix tabled (record s { db_dtls_ip = t })
  with_dtls_ip s t v sound = record {
    listed = v.listed;
    clients = v.clients;
    ip = v.ip;
    dtls_ip = sound;
    dtls_id = v.dtls_id;
    sid = v.sid;
  }

  moved-IsValid :
      (s : Server ix) (p : ℕ) (q : Proc) (removed : Bool) (addr : Sockaddr) (size : ℕ)
      → IsValid hash ix tabled s
      → s.procs p ≡ some q
      → IsAbsent ix (rehash_ip hash) tabled p s.db_ip
      → (removed ≡ true → tabled p q ≡ true)
      → IsValid hash ix tabled (moved hash ix removed p addr size q s).1
  unfolding moved drop_dtls
  moved-IsValid s p q removed addr size v here away was =
      let q₁ : Proc = record q { remote_addr = addr; remote_addr_len = size } in
      let P : Proc × Server ix → Type 0 =
        λ a. IsValid hash ix tabled (file_again hash ix removed p a.0 a.1).1 in
      let stays : P (q₁, s) =
        file_again-IsValid s p q q₁ removed v here
          (dtls_kept hash ix s p q q₁ v.dtls_ip here refl refl) refl refl refl away was in
      if_split P
        ((q.dtls_remote_addr_len == size)
          && bytes_eq (address_bytes addr size) (address_bytes q.dtls_remote_addr size))
        _ _
        (λ same.
          Option-split
            (λ o. P (elim o as (λ x. Proc × Server ix) [
              | none ↦ (q₁, s)
              | some t ↦ (record q₁ { dtls_remote_addr_len = 0 }, record s { db_dtls_ip = t })
            ]))
            (ix.del (rehash_dtls_ip hash q) p s.db_dtls_ip) (λ missed. stays)
            (λ t gone.
              let sound =
                del-IsSound ix (rehash_dtls_ip hash) on_dtls s.db_dtls_ip t s.procs p
                  (rehash_dtls_ip hash q) v.dtls_ip gone in
              let off : Proc = record q₁ { dtls_remote_addr_len = 0 } in
              file_again-IsValid (record s { db_dtls_ip = t }) p q off removed
                (with_dtls_ip s t v sound) here
                (put-IsSound ix (rehash_dtls_ip hash) on_dtls t s.procs p (some off) sound (
                  del-IsAbsent ix (rehash_dtls_ip hash) on_dtls s.db_dtls_ip t s.procs p q v.dtls_ip
                    here gone))
                refl refl refl away was))
        (λ other. stays)

  pub update_ip-IsValid :
      (s : Server ix) (p : ℕ) (q : Proc) (addr : Sockaddr) (size : ℕ)
      → IsValid hash ix tabled s
      → s.procs p ≡ some q
      → IsValid hash ix tabled (proc_table_update_ip hash ix p q addr size s).1
  unfolding proc_table_update_ip
  update_ip-IsValid s p q addr size v here =
      if_split (λ (a : Bool × Server ix). IsValid hash ix tabled a.1)
        (not (size == q.remote_addr_len) || not (same_sockaddr addr q.remote_addr)) _ _
        (λ changed.
          Option-split
            (λ o.
              IsValid hash ix tabled
                (elim o as (λ x. Bool × Server ix) [
                  | none ↦ moved hash ix false p addr size q s
                  | some t ↦ moved hash ix true p addr size q (record s { db_ip = t })
                ]).1)
            (ix.del (rehash_ip hash q) p s.db_ip)
            (λ missed.
              moved-IsValid s p q false addr size v here
                (none-IsAbsent ix (rehash_ip hash) tabled s.db_ip s.procs p q v.ip here missed)
                (λ e. cc))
            (λ t gone.
              moved-IsValid (record s { db_ip = t }) p q true addr size
                (with_ip s t v (
                  del-IsSound ix (rehash_ip hash) tabled s.db_ip t s.procs p (rehash_ip hash q) v.ip
                    gone))
                here (del-IsAbsent ix (rehash_ip hash) tabled s.db_ip t s.procs p q v.ip here gone)
                (λ e. held_del ix (rehash_ip hash) tabled s.db_ip t s.procs p q v.ip here gone)))
        (λ same. v)

  dtls_changed :
      (s : Server ix) (p : ℕ) (q : Proc) (addr : Sockaddr) (size : ℕ) (t : ix.Filed)
      → IsValid hash ix tabled s
      → s.procs p ≡ some q
      → IsSound ix
          (rehash_dtls_ip hash)
          on_dtls
          t
          (put p (some (record q { dtls_remote_addr = addr; dtls_remote_addr_len = size })) s.procs)
      → IsValid hash ix tabled (record s {
        procs =
            put p
              (some (record q { dtls_remote_addr = addr; dtls_remote_addr_len = size }))
              s.procs;
        db_dtls_ip = t;
      })
  dtls_changed s p q addr size t v here sound =
      let r : Proc = record q { dtls_remote_addr = addr; dtls_remote_addr_len = size } in
      record {
        listed = listed_put hash ix s p q r v.listed here;
        clients = v.clients;
        ip = same-IsSound ix (rehash_ip hash) tabled s.db_ip s.procs p q r v.ip here refl (λ h. h);
        dtls_ip = sound;
        dtls_id =
            same-IsSound ix (rehash_dtls_id hash) tabled s.db_dtls_id s.procs p q r v.dtls_id here
              refl (λ h. h);
        sid =
            same-IsSound ix (rehash_sid hash) tabled s.db_sid s.procs p q r v.sid here refl
              (λ h. h);
      }

  set_dtls-IsValid :
      (s : Server ix) (p : ℕ) (q : Proc) (addr : Sockaddr) (size : ℕ)
      → IsValid hash ix tabled s
      → s.procs p ≡ some q
      → IsAbsent ix (rehash_dtls_ip hash) on_dtls p s.db_dtls_ip
      → IsValid hash ix tabled (set_dtls hash ix p q addr size s).1
  unfolding set_dtls
  set_dtls-IsValid s p q addr size v here away =
      let P : Bool × Server ix → Type 0 = λ a. IsValid hash ix tabled a.1 in
      let put_sound : (r : Proc)
          → IsSound ix (rehash_dtls_ip hash) on_dtls s.db_dtls_ip (put p (some r) s.procs) =
        λ r.
          put-IsSound ix (rehash_dtls_ip hash) on_dtls s.db_dtls_ip s.procs p (some r) v.dtls_ip
            away in
      let set : Proc = record q { dtls_remote_addr = addr; dtls_remote_addr_len = size } in
      let off =
        dtls_changed s p q q.dtls_remote_addr 0 s.db_dtls_ip v here
          (put_sound (record q { dtls_remote_addr_len = 0 })) in
      if_split P (size == 0) _ _ (λ empty. off)
        (λ some_size.
          if_split P
            ((q.remote_addr_len == size)
              && bytes_eq (address_bytes q.remote_addr size) (address_bytes addr size))
            _ _ (λ same. off)
            (λ other.
              Option-split
                (λ o. P (elim o as (λ x. Bool × Server ix) [
                  | none ↦ (false, record s { procs = put p (some set) s.procs })
                  | some t ↦ (true, record s { procs = put p (some set) s.procs; db_dtls_ip = t })
                ]))
                (ix.add (rehash_dtls_ip hash set) p s.db_dtls_ip)
                (λ full. dtls_changed s p q addr size s.db_dtls_ip v here (put_sound set))
                (λ t added. dtls_changed s p q addr size t v here (
                  add-IsSound ix (rehash_dtls_ip hash) on_dtls s.db_dtls_ip t
                    (put p (some set) s.procs) p set (put_sound set) away
                    (put_here p (some set) s.procs) (ground arith) added))))

  pub update_dtls_ip-IsValid :
      (s : Server ix) (p : ℕ) (q : Proc) (addr : Sockaddr) (size : ℕ)
      → IsValid hash ix tabled s
      → s.procs p ≡ some q
      → IsValid hash ix tabled (proc_table_update_dtls_ip hash ix p q addr size s).1
  unfolding proc_table_update_dtls_ip
  update_dtls_ip-IsValid s p q addr size v here =
      let P : Bool × Server ix → Type 0 = λ a. IsValid hash ix tabled a.1 in
      if_split P (q.dtls_remote_addr_len == 0) _ _
        (λ off. set_dtls-IsValid s p q addr size v here (
          unheld-IsAbsent ix (rehash_dtls_ip hash) on_dtls s.db_dtls_ip s.procs p q v.dtls_ip
            (inr (here, ground arith))))
        (λ on.
          if_split P
            ((q.dtls_remote_addr_len == size)
              && bytes_eq (address_bytes q.dtls_remote_addr size) (address_bytes addr size))
            _ _ (λ same. v)
            (λ other.
              set_dtls-IsValid
                (record s { db_dtls_ip = erase hash ix (rehash_dtls_ip hash q) p s.db_dtls_ip }) p q
                addr size
                (with_dtls_ip s (erase hash ix (rehash_dtls_ip hash q) p s.db_dtls_ip) v (
                  erase-IsSound ix (rehash_dtls_ip hash) on_dtls s.db_dtls_ip s.procs p
                    (rehash_dtls_ip hash q) v.dtls_ip))
                here
                (erase-IsAbsent ix (rehash_dtls_ip hash) on_dtls s.db_dtls_ip s.procs p q v.dtls_ip
                  here)))
