-- ===== src/Resume/Roundtrip.antt =====
-- A stored TLS session is resumed (src/sec-mod-resume.c).
use ocserv.Prelude.{
  ℕ, ◌≤◌, ◌<◌, ◌≡◌, refl, ◌∙◌, ap, Bool, true, none, some, List, arith, Bytes, bytes_eq_refl,
  if◌then◌else◌, length,
}
use ocserv.Address.{Storage, ip_cmp}
use ocserv.Table.{Chained, count, find, find-perm, count-perm}
use ocserv.Resume.{
  Cache, Peer, TlsDb, FetchReq, StoreReq, Memory, handle_resume_fetch_req, handle_resume_store_req,
  pointers_differ, has_id, new_cache, keep_cache, max_cached, increase, max_session_id,
  max_session_data_size, sockaddr_storage_size, same_peer,
}
use ocserv.Resume.Answer.{answer_of, fetch-answer}

-- What handle_resume_store_req asks of a request and of the cache.
pub record IsStorable (max_clients : ℕ) (r : StoreReq) (s : TlsDb) : Type 0 where
  pub id : length r.session_id ≤ max_session_id
  pub data_low : 1 ≤ length r.session_data
  pub data_high : length r.session_data ≤ max_session_data_size
  pub room : s.entries < max_cached max_clients
  pub peer_low : 1 ≤ r.cli_addr.len
  pub peer_high : r.cli_addr.len ≤ sockaddr_storage_size

ip_cmp_refl : (a : Storage) → ip_cmp a a ≡ true
unfolding ip_cmp
ip_cmp_refl a = ground (arith, bytes_eq_refl a.sin_addr, bytes_eq_refl a.sin6_addr)

same_peer_refl : (p : Peer) → same_peer p p ≡ true
same_peer_refl p = ground (arith, ip_cmp_refl p.addr)

module _ (hash_any : Bytes → ℕ) (ct : Chained Cache (λ c. hash_any c.session_id))
    (max_clients : ℕ) where
  store_lem :
      (m : Memory) (r : StoreReq) (s : TlsDb) (t : List Cache)
      → IsStorable max_clients r s
      → m.entry ≡ true
      → ct.add (new_cache m r) s.ht ≡ some t
      → handle_resume_store_req hash_any ct max_clients m r s
        ≡ (true, record { ht = t; entries = increase s.entries })
  unfolding handle_resume_store_req keep_cache
  store_lem m r s t fits memory added =
      ground
        (arith, fits.id, fits.data_low, fits.data_high, fits.room, fits.peer_low, fits.peer_high)

  -- A session that fits, in a cache that is not full, is stored if there is memory for it; the
  -- answer is 0, and a request from the same address with its identifier gets its data back, if
  -- the identifier is new and neither of the two names a virtual host.
  pub store-fetch :
      (caseless : Bytes → Bytes → Bool) (m : Memory) (r : StoreReq) (s : TlsDb) (t : List Cache)
      → IsStorable max_clients r s
      → m.entry ≡ true
      → ct.add (new_cache m r) s.ht ≡ some t
      → count (has_id r.session_id) s.ht ≡ 0
      → r.vhost ≡ none
      → ((handle_resume_store_req hash_any ct max_clients m r s).0 ≡ true)
        × (handle_resume_fetch_req hash_any ct caseless
              (record { session_id = r.session_id; vhost = none; cli_addr = r.cli_addr })
              (handle_resume_store_req hash_any ct max_clients m r s).1
            ≡ some r.session_data)
  unfolding answer_of new_cache pointers_differ count find
  store-fetch caseless m r s t fits memory added fresh unnamed =
      let stored = store_lem m r s t fits memory added in
      let q : FetchReq = record {
        session_id = r.session_id;
        vhost = none;
        cli_addr = r.cli_addr;
      } in
      let c = new_cache m r in
      let u : TlsDb = record { ht = t; entries = increase s.entries } in
      let perm = ct.add-perm c s.ht t added in
      let mine : has_id r.session_id c ≡ true = bytes_eq_refl r.session_id in
      let one : count (has_id r.session_id) t ≤ 1 =
        (let sum = count-perm (has_id r.session_id) perm in ground (arith, sum, mine, fresh)) in
      let found : find (has_id r.session_id) t ≡ some c =
        find-perm (has_id r.session_id) perm one ∙ rw mine refl in
      let no_name : (if m.name then r.vhost else none) ≡ none = ground arith in
      let last : answer_of q (some c) ≡ some r.session_data =
        rw (no_name, same_peer_refl r.cli_addr) refl in
      let answer : handle_resume_fetch_req hash_any ct caseless q u ≡ some r.session_data =
        fetch-answer hash_any ct caseless q u one ∙ ap (answer_of q) found ∙ last in
      (
        ap (λ a. a.0) stored,
        ap (λ a. handle_resume_fetch_req hash_any ct caseless q a.1) stored ∙ answer,
      )
