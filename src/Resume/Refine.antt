-- ===== src/Resume/Refine.antt =====
-- The cache of TLS sessions as a map from identifiers to entries (src/sec-mod-resume.c).
use mathlib.Core.List.{Permᴰ}
use mathlib.Core.Path.{subst}
use ocserv.Prelude.{
  ℕ, ◌≤◌, ◌≡◌, refl, sym, ◌∙◌, ap, inl, inr, Bool, true, not, ◌||◌, Option, none, some, List, ◌∷◌,
  arith, Bytes, ◌==◌, bytes_eq, bytes_eq_sound, if◌then◌else◌, if_both, Option-split, Bool-cases,
  Option-cases, leb, ltb, length,
}
use ocserv.Table.{
  Chained, position, position-none, count, find, find-perm, count-perm, count-chain, find-sweep,
  count-sweep, find-none_of_count, count-zero_of_find, sweep,
}
use ocserv.Resume.{
  Cache, TlsDb, FetchReq, StoreReq, Memory, handle_resume_store_req, handle_resume_delete_req,
  expire_tls_sessions, has_id, new_cache, keep_cache, is_old, max_cached, increase, decrease,
  max_session_id, max_session_data_size, sockaddr_storage_size,
}
use ocserv.Resume.Step.{Op, World, store, fetch, delete, expire, step, reply}
use ocserv.Resume.Counted.{IsCounted, Deleted-perm, expire_in-sweep, max_cached_bound}
use ocserv.Resume.Answer.{answer_of, fetch-answer}

-- What the cache promises: a map.
abbrev pub Sessions : Type 0
Sessions = Bytes → Option Cache

abbrev pub put : Bytes → Option Cache → Sessions → Sessions
put id c m = λ k. if bytes_eq k id then c else m k

-- The sessions that the test spares.
abbrev pub spared : (Cache → Bool) → Option Cache → Option Cache
spared old none = none
spared old (some c) = if old c then none else some c

abbrev pub younger : (Cache → Bool) → Sessions → Sessions
younger old m = λ k. spared old (m k)

-- One step of the map, with its answer. A new session may be dropped; it is stored only under a
-- new identifier.
pub data Promise (w : World) (m : Sessions) : Op → Option Bytes → Sessions → Type 0 where
  dropped : (mem : Memory) (r : StoreReq) → Promise w m (store mem r) none m
  stored :
      (mem : Memory) (r : StoreReq)
      → Promise w m (store mem r) none (put r.session_id (some (new_cache mem r)) m)
  answered : (r : FetchReq) → Promise w m (fetch r) (answer_of r (m r.session_id)) m
  forgotten : (id : Bytes) → Promise w m (delete id) none (put id none m)
  aged : (now : ℕ) → Promise w m (expire now) none (younger (is_old w.entry_time w.timeout now) m)

-- The table holds the map: one entry at most for an identifier, and the one that the map has.
abbrev pub Holds : List Cache → Sessions → Type 0
Holds t m = (id : Bytes) → (count (has_id id) t ≤ 1) × (find (has_id id) t ≡ m id)

-- GnuTLS never asks to store a session under an identifier that is stored.
abbrev pub IsNew : Sessions → Op → Type 0
IsNew m (store mem r) = m r.session_id ≡ none
IsNew m o = Unit

-- An entry under a new identifier.
Holds-put :
    (t u : List Cache) (m : Sessions) (c : Cache)
    → Holds t m
    → m c.session_id ≡ none
    → Permᴰ u (c ∷ t)
    → Holds u (put c.session_id (some c) m)
unfolding count find
Holds-put t u m c h new perm id =
    let sum : count (has_id id) u ≡ count (has_id id) (c ∷ t) = count-perm (has_id id) perm in
    let absent : has_id id c ≡ true → count (has_id id) t ≡ 0 = λ hit.
      count-zero_of_find (has_id id) t
        ((h id).1 ∙ ap m (bytes_eq_sound id c.session_id hit) ∙ new) in
    let one : count (has_id id) u ≤ 1 = elim (Bool-cases (has_id id c)) [
      | inl hit ↦ ground (arith, sum, absent hit)
      | inr miss ↦ ground (arith, sum, (h id).0)
    ] in
    (one, find-perm (has_id id) perm one ∙ ap (λ o. if has_id id c then some c else o) (h id).1)

-- One entry less.
Holds-unset :
    (t u : List Cache) (m : Sessions) (c : Cache)
    → Holds t m
    → Permᴰ t (c ∷ u)
    → Holds u (put c.session_id none m)
unfolding count find
Holds-unset t u m c h perm id =
    let sum : count (has_id id) t ≡ count (has_id id) (c ∷ u) = count-perm (has_id id) perm in
    let old : find (has_id id) t ≡ find (has_id id) (c ∷ u) = find-perm (has_id id) perm (h id).0 in
    elim (Bool-cases (has_id id c)) [
      | inl hit ↦
          let zero_left : count (has_id id) u ≡ 0 = ground (arith, sum, (h id).0) in
          (omega (arith, zero_left), find-none_of_count (has_id id) u zero_left ∙ rw hit refl)
      | inr miss ↦
          let same : find (has_id id) u ≡ find (has_id id) t = sym (old ∙ rw miss refl) in
          (ground (arith, sum, (h id).0), same ∙ (h id).1 ∙ rw miss refl)
    ]

-- Nothing under the identifier.
Holds-absent :
    (t : List Cache) (m : Sessions) (id : Bytes)
    → Holds t m
    → count (has_id id) t ≡ 0
    → Holds t (put id none m)
Holds-absent t m id h zero_there k = elim (Bool-cases (bytes_eq k id)) [
  | inl same ↦
      let same_id : k ≡ id = bytes_eq_sound k id same in
      let zero_k : count (has_id k) t ≡ 0 = rw same_id zero_there in
      (omega (arith, zero_k), find-none_of_count (has_id k) t zero_k ∙ rw same refl)
  | inr other ↦ ((h k).0, (h k).1 ∙ rw other refl)
]

Holds-younger :
    (t : List Cache) (m : Sessions) (old : Cache → Bool)
    → Holds t m
    → Holds (sweep old t) (younger old m)
Holds-younger t m old h id = (
  omega (arith, (h id).0, count-sweep (has_id id) old t),
  elim (Option-cases (find (has_id id) t)) [
    | inl missed ↦
        let zero_there = count-zero_of_find (has_id id) t missed in
        find-none_of_count (has_id id) (sweep old t)
          (omega (arith, zero_there, count-sweep (has_id id) old t))
        ∙ ap (spared old) (sym missed ∙ (h id).1)
    | inr (c, found) ↦
        find-sweep (has_id id) old t c (h id).0 found ∙ ap (spared old) (sym found ∙ (h id).1)
  ],
)

module _ (hash_any : Bytes → ℕ) (ct : Chained Cache (λ c. hash_any c.session_id)) (w : World)
    (s : TlsDb) (m : Sessions) (v : IsCounted w.max_clients s) (h : Holds s.ht m) where
  -- What a step leaves: some step of the map with the same answer, to the map that the new table holds.
  abbrev Kept : Op → Type 0
  Kept o =
      (m' : Sessions) × Promise w m o (reply hash_any ct w s o) m'
      × Holds (step hash_any ct w s o).ht m'

  abbrev After : Op → TlsDb → Type 0
  After o u = (m' : Sessions) × Promise w m o none m' × Holds u.ht m'

  store-After :
      (mem : Memory) (r : StoreReq)
      → m r.session_id ≡ none
      → After (store mem r) (handle_resume_store_req hash_any ct w.max_clients mem r s).1
  unfolding handle_resume_store_req keep_cache new_cache
  store-After mem r new =
      let P : Bool × TlsDb → Type 0 = λ a. After (store mem r) a.1 in
      let drop : After (store mem r) s = (m, dropped mem r, h) in
      let c = new_cache mem r in
      if_both P (ltb max_session_id (length r.session_id)) _ _ drop (
        if_both P
          ((length r.session_data == 0) || ltb max_session_data_size (length r.session_data)) _ _
          drop
          (if_both P (leb (max_cached w.max_clients) s.entries) _ _ drop (
            if_both P ((r.cli_addr.len == 0) || ltb sockaddr_storage_size r.cli_addr.len) _ _ drop (
              if_both P (not mem.entry) _ _ drop (
                Option-split
                  (λ o. After (store mem r) (elim o [
                    | none ↦ s
                    | some t ↦ record { ht = t; entries = increase s.entries }
                  ]))
                  (ct.add c s.ht) (λ e. drop)
                  (λ t added. (
                    put r.session_id (some c) m,
                    stored mem r,
                    Holds-put s.ht t m c h new (ct.add-perm c s.ht t added),
                  )))))))

  delete-After : (id : Bytes) → After (delete id) (handle_resume_delete_req hash_any ct id s)
  unfolding handle_resume_delete_req
  delete-After id =
      let key = hash_any id in
      let hashed = λ (c : Cache) (e : has_id id c ≡ true).
        ap hash_any (sym (bytes_eq_sound id c.session_id e)) in
      Option-split
        (λ o. After (delete id) (elim o [
          | none ↦ s
          | some i ↦ record { ht = ct.del key i s.ht; entries = decrease s.entries }
        ]))
        (position (has_id id) (ct.chain key s.ht))
        (λ e.
          let zero_there = position-none (has_id id) (ct.chain key s.ht) e in
          let all = count-chain ct key (has_id id) hashed s.ht in
          (put id none m, forgotten id, Holds-absent s.ht m id h (sym all ∙ zero_there)))
        (λ i at_i.
          let (c, perm, hit) = Deleted-perm hash_any ct key (has_id id) s.ht i at_i in
          let same_id : c.session_id ≡ id = sym (bytes_eq_sound id c.session_id hit) in
          (
            put id none m,
            forgotten id,
            subst (λ k. Holds (ct.del key i s.ht) (put k none m)) same_id
                (Holds-unset s.ht (ct.del key i s.ht) m c h perm),
          ))

  expire-After : (now : ℕ) → After (expire now) (expire_tls_sessions w.entry_time w.timeout now s)
  unfolding expire_tls_sessions
  expire-After now =
      let old = is_old w.entry_time w.timeout now in
      let swept =
        expire_in-sweep old s.ht 0 s.entries (omega (arith, v.counted))
          (omega (arith, v.bounded, max_cached_bound w.max_clients)) in
      (
        younger old m,
        aged now,
        subst (λ t. Holds t (younger old m)) (sym (ap (λ a. a.0) swept))
            (Holds-younger s.ht m old h),
      )

  -- The cache refines a map from identifiers to sessions: whatever it is asked, its answer and its
  -- new table are those of a step of the map, where a session is answered only by its data, a
  -- deleted session and one that is too old are gone, and nothing else changes. This holds as long
  -- as no session is stored under an identifier that is in use.
  pub step-Kept : (o : Op) → IsNew m o → Kept o
  unfolding step reply
  step-Kept (store mem r) new = store-After mem r new
  step-Kept (fetch r) new = (
    m,
    subst (λ a. Promise w m (fetch r) a m)
        (sym (
          fetch-answer hash_any ct w.caseless r s (h r.session_id).0
          ∙ ap (answer_of r) (h r.session_id).1))
        (answered r),
    h,
  )
  step-Kept (delete id) new = delete-After id
  step-Kept (expire now) new = expire-After now
