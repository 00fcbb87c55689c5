-- ===== src/Resume/Counted.antt =====
-- The cache of TLS sessions is counted and bounded (src/sec-mod-resume.c).
use mathlib.Core.List.{Permᴰ}
use mathlib.Core.List.Permᴰ
use mathlib.Core.Path.{subst}
use ocserv.Prelude.{
  ℕ, suc, ◌+◌, ◌^◌, ◌≤◌, ◌<◌, ◌≡◌, refl, sym, ◌∙◌, ap, inl, inr, Bool, true, not, ◌||◌, none, some,
  List, [], ◌∷◌, arith, Bytes, ◌==◌, ltb, leb, length, All, if_both, if_split, Option-split,
  Bool-cases,
}
use ocserv.Table.{Chained, position, sweep, All-perm, All-sweep, position-CutAt}
use ocserv.Resume.{
  Cache, TlsDb, StoreReq, Memory, handle_resume_delete_req, handle_resume_store_req,
  expire_tls_sessions, expire_in, is_old, new_cache, keep_cache, max_cached, increase, decrease,
  max_session_id, max_session_data_size, has_id, sockaddr_storage_size,
}
use ocserv.Resume.Step.{Op, World, store, fetch, delete, expire, step, run}

-- The arrays of an entry hold what was copied into them.
pub record IsSized (c : Cache) : Type 0 where
  pub id : length c.session_id ≤ max_session_id
  pub data_low : 1 ≤ length c.session_data
  pub data_high : length c.session_data ≤ max_session_data_size

-- The counter is the number of entries, within the bound.
pub record IsCounted (max_clients : ℕ) (s : TlsDb) : Type 0 where
  pub counted : s.entries ≡ length s.ht
  pub bounded : s.entries ≤ max_cached max_clients
  pub sized : All IsSized s.ht

pub max_cached_bound : (n : ℕ) → max_cached n < 2 ^ 32
max_cached_bound n = ground arith

length-perm : {E : Type 0} {t u : List E} → Permᴰ t u → length t ≡ length u
length-perm Permᴰ.nil = refl
length-perm (Permᴰ.cons e d) = ap suc (length-perm d)
length-perm (Permᴰ.swap e f) = refl
length-perm (Permᴰ.trans d e) = length-perm d ∙ length-perm e

extra_suc : (a b : ℕ) → a + suc b ≡ suc a + b
extra_suc a b = omega arith

length-sweep : {E : Type 0} (d : E → Bool) (t : List E) → length (sweep d t) ≤ length t
unfolding sweep
length-sweep d [] = omega arith
length-sweep d (e ∷ t) = let rest = length-sweep d t in ground (arith, rest)

-- The loop of the timer is one sweep, and counts it.
pub expire_in-sweep :
    (old : Cache → Bool) (t : List Cache) (extra n : ℕ)
    → n ≡ length t + extra
    → n < 2 ^ 32
    → expire_in old t n ≡ (sweep old t, length (sweep old t) + extra)
unfolding expire_in sweep
expire_in-sweep old [] extra n e h = λ i. ([], e i)
expire_in-sweep old (c ∷ t) extra n e h =
    let less : decrease n ≡ length t + extra = omega (arith, e, h) in
    let gone = expire_in-sweep old t extra (decrease n) less (omega (arith, e, h)) in
    let kept = expire_in-sweep old t (suc extra) n (omega (arith, e)) h in
    elim (Bool-cases (old c)) [
      | inl hit ↦ rw (hit, gone) refl
      | inr miss ↦
          rw (miss, kept) (λ i. (c ∷ sweep old t, extra_suc (length (sweep old t)) extra i))
    ]

module _ (hash_any : Bytes → ℕ) (ct : Chained Cache (λ c. hash_any c.session_id)) where
  -- The entry that a request for deletion takes out.
  pub Deleted-perm :
      (k : ℕ) (p : Cache → Bool) (t : List Cache) (i : ℕ)
      → position p (ct.chain k t) ≡ some i
      → (e : Cache) × Permᴰ t (e ∷ ct.del k i t) × (p e ≡ true)
  Deleted-perm k p t i at_i =
      let cut = position-CutAt p (ct.chain k t) i at_i in
      (
        cut.hit,
        subst (λ j. Permᴰ t (cut.hit ∷ ct.del k j t)) cut.place
            (ct.del-perm k t cut.before cut.after cut.hit cut.whole),
        cut.tested,
      )

  delete-IsCounted :
      (n : ℕ) (id : Bytes) (s : TlsDb)
      → IsCounted n s
      → IsCounted n (handle_resume_delete_req hash_any ct id s)
  unfolding handle_resume_delete_req
  delete-IsCounted n id s v =
      let key = hash_any id in
      Option-split
        (λ o. IsCounted n (elim o [
          | none ↦ s
          | some i ↦ record { ht = ct.del key i s.ht; entries = decrease s.entries }
        ]))
        (position (has_id id) (ct.chain key s.ht)) (λ e. v)
        (λ i at_i.
          let (e, perm, hit) = Deleted-perm key (has_id id) s.ht i at_i in
          let size : length s.ht ≡ suc (length (ct.del key i s.ht)) = length-perm perm in
          record {
            counted = omega (arith, size, v.counted, v.bounded, max_cached_bound n);
            bounded = omega (arith, size, v.counted, v.bounded, max_cached_bound n);
            sized = (All-perm IsSized perm v.sized).1;
          })

  keep-IsCounted :
      (n : ℕ) (c : Cache) (s : TlsDb)
      → IsSized c
      → s.entries < max_cached n
      → IsCounted n s
      → IsCounted n (keep_cache hash_any ct c s)
  unfolding keep_cache
  keep-IsCounted n c s sized room v =
      Option-split
        (λ o.
          IsCounted n
            (elim o [ none ↦ s | some t ↦ record { ht = t; entries = increase s.entries } ]))
        (ct.add c s.ht) (λ e. v)
        (λ t added.
          let perm = ct.add-perm c s.ht t added in
          let size : length t ≡ suc (length s.ht) = length-perm perm in
          record {
            counted = omega (arith, size, v.counted, room, max_cached_bound n);
            bounded = omega (arith, room, max_cached_bound n);
            sized = All-perm IsSized (Permᴰ.symm perm) (sized, v.sized);
          })

  store-IsCounted :
      (n : ℕ) (m : Memory) (r : StoreReq) (s : TlsDb)
      → IsCounted n s
      → IsCounted n (handle_resume_store_req hash_any ct n m r s).1
  unfolding handle_resume_store_req new_cache
  store-IsCounted n m r s v =
      let P : Bool × TlsDb → Type 0 = λ a. IsCounted n a.1 in
      if_split P (ltb max_session_id (length r.session_id)) _ _ (λ long. v)
        (λ id_fits.
          if_split P
            ((length r.session_data == 0) || ltb max_session_data_size (length r.session_data)) _ _
            (λ bad. v)
            (λ data_fits.
              if_split P (leb (max_cached n) s.entries) _ _ (λ full. v)
                (λ room.
                  if_both P ((r.cli_addr.len == 0) || ltb sockaddr_storage_size r.cli_addr.len) _ _
                    v
                    (if_both P (not m.entry) _ _ v (
                      keep-IsCounted n (new_cache m r) s
                        (record {
                          id = ground arith;
                          data_low = ground arith;
                          data_high = ground arith;
                        })
                        (ground arith) v)))))

  expire-IsCounted :
      (n : ℕ) (entry_time : Bytes → ℕ) (timeout now : ℕ) (s : TlsDb)
      → IsCounted n s
      → IsCounted n (expire_tls_sessions entry_time timeout now s)
  unfolding expire_tls_sessions
  expire-IsCounted n entry_time timeout now s v =
      let old = is_old entry_time timeout now in
      let swept =
        expire_in-sweep old s.ht 0 s.entries (omega (arith, v.counted))
          (omega (arith, v.bounded, max_cached_bound n)) in
      let after : IsCounted n
          (record { ht = sweep old s.ht; entries = length (sweep old s.ht) + 0 }) =
        record {
          counted = omega arith;
          bounded = omega (arith, length-sweep old s.ht, v.counted, v.bounded);
          sized = All-sweep IsSized old s.ht v.sized;
        } in
      subst (λ r. IsCounted n (record { ht = r.0; entries = r.1 })) (sym swept) after

  module _ (w : World) where
    step-IsCounted :
        (s : TlsDb) (o : Op)
        → IsCounted w.max_clients s
        → IsCounted w.max_clients (step hash_any ct w s o)
    unfolding step
    step-IsCounted s (store m r) v = store-IsCounted w.max_clients m r s v
    step-IsCounted s (fetch r) v = v
    step-IsCounted s (delete id) v = delete-IsCounted w.max_clients id s v
    step-IsCounted s (expire now) v = expire-IsCounted w.max_clients w.entry_time w.timeout now s v

    -- Every history of requests, and of times at which old sessions expire, keeps this: the counter
    -- is the number of entries, there are at most max(2 * max_clients, 64) of them (computed in an
    -- unsigned int), and each has an identifier of at most 32 bytes, and session data of 1 to 4096.
    pub run-IsCounted :
        (s : TlsDb) (os : List Op)
        → IsCounted w.max_clients s
        → IsCounted w.max_clients (run hash_any ct w s os)
    unfolding run
    run-IsCounted s [] v = v
    run-IsCounted s (o ∷ os) v = run-IsCounted (step hash_any ct w s o) os (step-IsCounted s o v)
