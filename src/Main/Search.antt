-- ===== src/Main/Search.antt =====
-- The tables of the clients (src/proc-search.c).
use ocserv.Prelude.{
  ℕ, ◌+◌, ◌%◌, ◌^◌, Bool, true, false, not, ◌&&◌, ◌||◌, Option, none, some, Bytes, bytes_eq, ◌==◌,
  if◌then◌else◌, ltb, take,
}
use ocserv.Address.{sa_in_size, sa_in_p_generic, family_eq}
use ocserv.Main.Index.{Index}
use ocserv.Main.Proc.{Sockaddr, Proc, Server, put}

-- The bytes of the address that are hashed and compared: SA_IN_P_GENERIC, for SA_IN_SIZE bytes.
abbrev pub address_bytes : Sockaddr → ℕ → Bytes
address_bytes a size = take (sa_in_size size) (sa_in_p_generic a.address size)

-- memcmp of two socket addresses
unfoldable pub same_sockaddr : Sockaddr → Sockaddr → Bool
same_sockaddr a b =
    family_eq a.address.family b.address.family
    && ((a.port == b.port)
        && (bytes_eq a.address.sin_addr b.address.sin_addr
            && bytes_eq a.address.sin6_addr b.address.sin6_addr))

module _ (hash_any : Bytes → ℕ) where
  abbrev pub rehash_ip : Proc → ℕ
  rehash_ip q = hash_any (address_bytes q.remote_addr q.remote_addr_len)

  abbrev pub rehash_dtls_ip : Proc → ℕ
  rehash_dtls_ip q = hash_any (address_bytes q.dtls_remote_addr q.dtls_remote_addr_len)

  abbrev pub rehash_dtls_id : Proc → ℕ
  rehash_dtls_id q = hash_any q.dtls_session_id

  abbrev pub rehash_sid : Proc → ℕ
  rehash_sid q = hash_any q.sid

  module _ (ix : Index) where
    -- htable_del where the result is not looked at
    abbrev pub erase : ℕ → ℕ → ix.Filed → ix.Filed
    erase h p t = elim (ix.del h p t) [ none ↦ t | some u ↦ u ]

    -- proc_table_add, at the pointer `p` with `q` there: whether it returns 0.
    unfoldable pub proc_table_add : ℕ → Proc → Server ix → Bool × Server ix
    proc_table_add p q s = elim (ix.add (rehash_ip q) p s.db_ip) [
      | none ↦ (false, s)
      | some ip ↦ elim (ix.add (rehash_dtls_id q) p s.db_dtls_id) [
        | none ↦ (false, record s { db_ip = erase (rehash_ip q) p ip })
        | some id ↦ elim (ix.add (rehash_sid q) p s.db_sid) [
          | none ↦ (
            false,
            record s {
              db_ip = erase (rehash_ip q) p ip;
              db_dtls_id = erase (rehash_dtls_id q) p id;
            },
          )
          | some sid ↦ (
            true,
            record s { db_ip = ip; db_dtls_id = id; db_sid = sid; total = (s.total + 1) % 2 ^ 32 },
          )
        ]
      ]
    ]

    -- The second entry of a client whose address is now the same on both channels.
    unfoldable pub drop_dtls : ℕ → Sockaddr → ℕ → Proc → Server ix → Proc × Server ix
    drop_dtls p addr size q s =
        if (q.dtls_remote_addr_len == size)
          && bytes_eq (address_bytes addr size) (address_bytes q.dtls_remote_addr size)
        then elim (ix.del (rehash_dtls_ip q) p s.db_dtls_ip) [
          | none ↦ (q, s)
          | some t ↦ (record q { dtls_remote_addr_len = 0 }, record s { db_dtls_ip = t })
        ]
        else (q, s)

    -- The end of proc_table_update_ip, which files the client again if it was filed.
    unfoldable pub file_again : Bool → ℕ → Proc → Server ix → Bool × Server ix
    file_again removed p q s =
        let s' : Server ix = record s { procs = put p (some q) s.procs } in
        if removed
        then elim (ix.add (rehash_ip q) p s.db_ip) [
          | none ↦ (false, s')
          | some t ↦ (true, record s' { db_ip = t })
        ]
        else (true, s')

    unfoldable pub moved : Bool → ℕ → Sockaddr → ℕ → Proc → Server ix → Bool × Server ix
    moved removed p addr size q s =
        let (q', s') =
          drop_dtls p addr size (record q { remote_addr = addr; remote_addr_len = size }) s in
        file_again removed p q' s'

    -- proc_table_update_ip: whether it returns 0.
    unfoldable pub proc_table_update_ip : ℕ → Proc → Sockaddr → ℕ → Server ix → Bool × Server ix
    proc_table_update_ip p q addr size s =
        if not (size == q.remote_addr_len) || not (same_sockaddr addr q.remote_addr)
        then elim (ix.del (rehash_ip q) p s.db_ip) [
          | none ↦ moved false p addr size q s
          | some t ↦ moved true p addr size q (record s { db_ip = t })
        ]
        else (true, s)

    -- The part of proc_table_update_dtls_ip past the removal of the old address.
    unfoldable pub set_dtls : ℕ → Proc → Sockaddr → ℕ → Server ix → Bool × Server ix
    set_dtls p q addr size s =
        let none_set : Proc = record q { dtls_remote_addr_len = 0 } in
        let set : Proc = record q { dtls_remote_addr = addr; dtls_remote_addr_len = size } in
        if size == 0
        then (true, record s { procs = put p (some none_set) s.procs })
        else if (q.remote_addr_len == size)
            && bytes_eq (address_bytes q.remote_addr size) (address_bytes addr size)
        then (false, record s { procs = put p (some none_set) s.procs })
        else elim (ix.add (rehash_dtls_ip set) p s.db_dtls_ip) [
          | none ↦ (false, record s { procs = put p (some set) s.procs })
          | some t ↦ (true, record s { procs = put p (some set) s.procs; db_dtls_ip = t })
        ]

    -- proc_table_update_dtls_ip: whether it returns 0.
    unfoldable pub proc_table_update_dtls_ip :
        ℕ → Proc → Sockaddr → ℕ → Server ix → Bool × Server ix
    proc_table_update_dtls_ip p q addr size s =
        if q.dtls_remote_addr_len == 0
        then set_dtls p q addr size s
        else if (q.dtls_remote_addr_len == size)
            && bytes_eq (address_bytes q.dtls_remote_addr size) (address_bytes addr size)
        then (false, s)
        else set_dtls p q addr size
            (record s { db_dtls_ip = erase (rehash_dtls_ip q) p s.db_dtls_ip })

    -- proc_table_del
    unfoldable pub proc_table_del : ℕ → Proc → Server ix → Server ix
    proc_table_del p q s = record s {
      db_dtls_ip =
          if ltb 0 q.dtls_remote_addr_len
          then erase (rehash_dtls_ip q) p s.db_dtls_ip
          else s.db_dtls_ip;
      db_ip = erase (rehash_ip q) p s.db_ip;
      db_dtls_id = erase (rehash_dtls_id q) p s.db_dtls_id;
      db_sid = erase (rehash_sid q) p s.db_sid;
    }

    -- local_ip_cmp; it counts the matches it sees, of which htable_get sees one at most.
    unfoldable pub local_ip_cmp : Sockaddr → ℕ → Proc → Bool
    local_ip_cmp addr size q =
        not (size == 0)
        && (((q.dtls_remote_addr_len == size)
              && bytes_eq (address_bytes q.dtls_remote_addr size) (address_bytes addr size))
            || ((q.remote_addr_len == size)
                && bytes_eq (address_bytes q.remote_addr size) (address_bytes addr size)))

    -- A comparison of what stands at a pointer.
    abbrev pub at : (ℕ → Option Proc) → (Proc → Bool) → ℕ → Bool
    at procs c p = elim (procs p) [ none ↦ false | some q ↦ c q ]

    -- proc_search_single_ip
    unfoldable pub proc_search_single_ip : Sockaddr → ℕ → Server ix → Option ℕ
    proc_search_single_ip addr size s =
        let h = hash_any (address_bytes addr size) in
        elim (ix.get h (at s.procs (local_ip_cmp addr size)) s.db_dtls_ip) [
          | some p ↦ some p
          | none ↦ ix.get h (at s.procs (local_ip_cmp addr size)) s.db_ip
        ]

    -- proc_search_dtls_id
    unfoldable pub proc_search_dtls_id : Bytes → Server ix → Option ℕ
    proc_search_dtls_id id s =
        ix.get (hash_any id) (at s.procs (λ q. bytes_eq q.dtls_session_id id)) s.db_dtls_id

    -- proc_search_sid
    unfoldable pub proc_search_sid : Bytes → Server ix → Option ℕ
    proc_search_sid sid s = ix.get (hash_any sid) (at s.procs (λ q. bytes_eq q.sid sid)) s.db_sid
