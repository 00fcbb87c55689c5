-- ===== src/Mtu/Bounds.antt =====
-- The bounds of a worker's MTU (src/worker-vpn.c, src/worker.h).
use ocserv.Prelude.{
  ℕ, ◌+◌, ◌-◌, ◌/◌, ◌%◌, ◌^◌, ◌≤◌, ◌<◌, ◌≡◌, Bool, false, not, ◌&&◌, ◌||◌, List, [], ◌∷◌, Option,
  none, some, arith, ltb, leb, ◌==◌, if◌then◌else◌, if_split, if_both, Option-split, All,
}
use ocserv.Mtu.{
  Worker, Gnutls, is_inet, is_inet6, min_mtu, buffer_size, data_mtu, follow_session, give_up,
  link_mtu_set, data_mtu_set, disable_mtu_disc, too_large, path_mtu, mtu_not_ok, mtu_ok,
  mtu_discovery_init,
}
use ocserv.Mtu.Events.{
  Op, start_dtls, packet, dpd, check, other_dtls, Sent, large, negative, bytes, set_up, after_send,
  is_full, dpd_out, reduce, step, run,
}

-- What is told to the main process is positive: DATA_MTU does not wrap around.
abbrev pub IsPayload : ℕ → Type 0
IsPayload n = (1 ≤ n) × (n ≤ buffer_size)

pub record InBounds (ipv6 : Bool) (link crypto proto : ℕ) (told : List ℕ) : Type 0 where
  pub low : (if ipv6 then 1280 else 800) ≤ link
  pub high : link ≤ buffer_size
  pub room : crypto + proto < (if ipv6 then 1280 else 800)
  pub payloads : All IsPayload told

-- The link MTU is at least MIN_MTU and fits the buffer, and leaves room for a payload.
abbrev pub IsBounded : {S : Type 0} → Worker S → Type 0
IsBounded w = InBounds w.ipv6 w.link_mtu w.dtls_crypto_overhead w.dtls_proto_overhead w.told

module _ {S : Type 0} (g : Gnutls S) where
  set-IsBounded : (mtu : ℕ) (w : Worker S) → IsBounded w → IsBounded (link_mtu_set g mtu w)
  unfolding link_mtu_set
  set-IsBounded mtu w b =
      if_split (λ (r : Worker S). IsBounded r)
        (((w.link_mtu == mtu) || ltb buffer_size mtu) || ltb mtu (min_mtu w)) _ _ (λ _. b)
        (λ t.
          let r = b.room in
          let small : (mtu ≤ buffer_size) × (min_mtu w ≤ mtu) = ground arith in
          let e : data_mtu w mtu ≡ mtu - (w.dtls_crypto_overhead + w.dtls_proto_overhead) =
            omega arith in
          record {
            low = small.1;
            high = small.0;
            room = r;
            payloads = (rw e (omega arith, omega arith), b.payloads);
          })

  disable-IsBounded : (w : Worker S) → IsBounded w → IsBounded (disable_mtu_disc g w)
  unfolding disable_mtu_disc
  disable-IsBounded w b = set-IsBounded w.adv_link_mtu (record w { mtu_disc = false }) b

  give_up-IsBounded : (w : Worker S) → IsBounded w → IsBounded (give_up g w)
  give_up-IsBounded w b = set-IsBounded (min_mtu w) (disable_mtu_disc g w) (disable-IsBounded w b)

  too_large-IsBounded : (w : Worker S) → IsBounded w → IsBounded (too_large g w)
  unfolding too_large
  too_large-IsBounded w b =
      if_both (λ (r : Worker S). IsBounded r) (w.last_good_mtu == min_mtu w) _ _
        (give_up-IsBounded (record w { last_bad_mtu = w.link_mtu }) b)
        (set-IsBounded _ (record w { last_bad_mtu = w.link_mtu; last_good_mtu = _ }) b)

  path-IsBounded :
      (answer : Option ℕ) (w : Worker S) → IsBounded w → IsBounded (path_mtu g answer w)
  unfolding path_mtu
  path-IsBounded none w b = give_up-IsBounded w b
  path-IsBounded (some mtu) w b =
      if_both (λ (r : Worker S). IsBounded r) (ltb mtu 1280) _ _ (give_up-IsBounded w b)
        (set-IsBounded mtu w b)

  not_ok-IsBounded :
      (answer : Option ℕ) (w : Worker S) → IsBounded w → IsBounded (mtu_not_ok g answer w)
  unfolding mtu_not_ok
  not_ok-IsBounded answer w b =
      let P : Worker S → Type 0 = λ (r : Worker S). IsBounded r in
      Option-split
        (λ o. P (elim o [
          | none ↦ w
          | some _ ↦
              if not w.try_mtu
              then w
              else if is_inet w.proto
              then too_large g w
              else if is_inet6 w.proto
              then path_mtu g answer w
              else w
        ]))
        w.dtls_session (λ _. b)
        (λ s _. if_both P (not w.try_mtu) _ _ b (
          if_both P (is_inet w.proto) _ _ (too_large-IsBounded w b)
            (if_both P (is_inet6 w.proto) _ _ (path-IsBounded answer w b) b)))

  ok-IsBounded : (w : Worker S) → IsBounded w → IsBounded (mtu_ok g w)
  unfolding mtu_ok
  ok-IsBounded w b =
      let P : Worker S → Type 0 = λ (r : Worker S). IsBounded r in
      if_both P (not w.try_mtu || is_inet6 w.proto) _ _ b (
        if_both P ((w.last_bad_mtu == (w.link_mtu + 1) % 2 ^ 32) || (w.last_bad_mtu == w.link_mtu))
          _ _ b
          (set-IsBounded ((w.link_mtu + w.last_bad_mtu) % 2 ^ 32 / 2)
            (record w { last_good_mtu = w.link_mtu }) b))

  follow-IsBounded : (mtu : ℕ) (w : Worker S) → IsBounded w → IsBounded (follow_session g mtu w)
  follow-IsBounded mtu w b =
      if_both (λ (r : Worker S). IsBounded r) ((mtu == 0) || (mtu == w.link_mtu)) _ _ b
        (set-IsBounded _ w b)

  data_set-IsBounded : (mtu : ℕ) (w : Worker S) → IsBounded w → IsBounded (data_mtu_set g mtu w)
  unfolding data_mtu_set
  data_set-IsBounded mtu w b =
      Option-split
        (λ o. IsBounded (elim o as (λ x. Worker S) [
          | none ↦ w
          | some s ↦
              let s' = g.dtls_set_data_mtu ((mtu + 1) % 2 ^ 32) s in
              follow_session g (g.dtls_get_mtu s') (record w { dtls_session = some s' })
        ]))
        w.dtls_session (λ _. b) (λ s _. follow-IsBounded _ (record w { dtls_session = some _ }) b)

  init-IsBounded : (mtu : ℕ) (w : Worker S) → IsBounded w → IsBounded (mtu_discovery_init g mtu w)
  unfolding mtu_discovery_init
  init-IsBounded mtu w b =
      if_both (λ (r : Worker S). IsBounded r) (leb mtu (min_mtu w)) _ _ (disable-IsBounded w b) b

  reduce-IsBounded :
      (pmtu : Option ℕ) (limit : ℕ) (w : Worker S) → IsBounded w → IsBounded (reduce g pmtu limit w)
  reduce-IsBounded none limit w b = b
  reduce-IsBounded (some max) limit w b =
      if_both (λ (r : Worker S). IsBounded r) (ltb 0 max && ltb max limit) _ _
        (set-IsBounded max w b) b

  send-IsBounded :
      (answer : Option ℕ) (ret : Sent) (w : Worker S)
      → IsBounded w
      → IsBounded (after_send g answer ret w)
  unfolding after_send
  send-IsBounded answer large w b = not_ok-IsBounded answer w b
  send-IsBounded answer (negative n) w b =
      if_both (λ (r : Worker S). IsBounded r) (is_full w (negative n) && w.try_mtu) _ _
        (ok-IsBounded w b) b
  send-IsBounded answer (bytes n) w b =
      if_both (λ (r : Worker S). IsBounded r) (is_full w (bytes n) && w.try_mtu) _ _
        (ok-IsBounded w b) b

  step-IsBounded : (op : Op S) (w : Worker S) → IsBounded w → IsBounded (step g op w)
  unfolding step set_up dpd_out
  step-IsBounded (start_dtls s) w b =
      init-IsBounded _ (record (link_mtu_set g w.adv_link_mtu w) { dtls_session = _ })
        (set-IsBounded w.adv_link_mtu w b)
  step-IsBounded (packet ret answer) w b = send-IsBounded answer ret w b
  step-IsBounded (dpd size too_big answer) w b =
      let inner = (size + (2 ^ 64 - 1)) % 2 ^ 64 in
      let w1 = if ltb (data_mtu w w.link_mtu) inner then data_mtu_set g (inner % 2 ^ 32) w else w in
      let b1 =
        if_both (λ (r : Worker S). IsBounded r) (ltb (data_mtu w w.link_mtu) inner) _ _
          (data_set-IsBounded (inner % 2 ^ 32) w b) b in
      if_both (λ (r : Worker S). IsBounded r) too_big _ _ (not_ok-IsBounded answer w1 b1) b1
  step-IsBounded (check pmtu) w b = reduce-IsBounded pmtu w.link_mtu w b
  step-IsBounded (other_dtls o) w b = b

  -- After every history, on IPv4 and IPv6, the link MTU is at least MIN_MTU and fits the buffer, the
  -- overhead is less, and each data MTU told to the main process is positive and fits the buffer, if
  -- that was so at the start.
  pub run-IsBounded : (ops : List (Op S)) (w : Worker S) → IsBounded w → IsBounded (run g ops w)
  unfolding run
  run-IsBounded [] w b = b
  run-IsBounded (op ∷ ops) w b = run-IsBounded ops (step g op w) (step-IsBounded op w b)
