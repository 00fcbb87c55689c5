-- ===== src/Mtu/Ceiling.antt =====
-- The advertised link MTU as a ceiling (src/worker-vpn.c).
use ocserv.Prelude.{
  ℕ, ◌+◌, ◌/◌, ◌%◌, ◌^◌, ◌≤◌, ◌≡◌, Bool, false, not, ◌&&◌, ◌||◌, List, [], ◌∷◌, Option, none, some,
  arith, ltb, leb, ◌==◌, if◌then◌else◌, if_split, if_both, Option-split, All,
}
use ocserv.Mtu.{
  Worker, Gnutls, is_inet, is_inet6, LinkFamily, min_mtu, buffer_size, two_thirds, link_mtu_set,
  disable_mtu_disc, too_large, path_mtu, mtu_not_ok, mtu_ok, mtu_discovery_init,
}
use ocserv.Mtu.Events.{
  Op, start_dtls, packet, dpd, check, other_dtls, Sent, large, negative, bytes, set_up, after_send,
  is_full, reduce, step, run,
}

-- Not over IPv6: none of the MTUs is above the advertised one, which is `cap`.
pub record Capped (cap : ℕ) (family : LinkFamily) (ipv6 : Bool) (adv link good bad : ℕ)
    : Type 0 where
  pub four : is_inet6 family ≡ false
  pub minimum : (if ipv6 then 1280 else 800) ≤ cap
  pub same : adv ≡ cap
  pub current : link ≤ cap
  pub passed : good ≤ cap
  pub failed : bad ≤ cap

abbrev pub IsCapped : {S : Type 0} → ℕ → Worker S → Type 0
IsCapped cap w = Capped cap w.proto w.ipv6 w.adv_link_mtu w.link_mtu w.last_good_mtu w.last_bad_mtu

-- Every event but dead peer detection, by which the peer asks for an MTU.
abbrev pub IsOwn : {S : Type 0} → Op S → Type 0
IsOwn (start_dtls s) = Unit {0}
IsOwn (packet ret answer) = Unit {0}
IsOwn (dpd size too_big answer) = ⊥
IsOwn (check pmtu) = Unit {0}
IsOwn (other_dtls o) = Unit {0}

module _ {S : Type 0} (g : Gnutls S) (cap : ℕ) where
  set-IsCapped :
      (mtu : ℕ) (w : Worker S) → mtu ≤ cap → IsCapped cap w → IsCapped cap (link_mtu_set g mtu w)
  unfolding link_mtu_set
  set-IsCapped mtu w small c =
      if_both (λ (r : Worker S). IsCapped cap r)
        (((w.link_mtu == mtu) || ltb buffer_size mtu) || ltb mtu (min_mtu w)) _ _ c
        (record {
          four = c.four;
          minimum = c.minimum;
          same = c.same;
          current = small;
          passed = c.passed;
          failed = c.failed;
        })

  disable-IsCapped : (w : Worker S) → IsCapped cap w → IsCapped cap (disable_mtu_disc g w)
  unfolding disable_mtu_disc
  disable-IsCapped w c =
      set-IsCapped w.adv_link_mtu (record w { mtu_disc = false }) (ground (arith, c.same)) c

  too_large-IsCapped : (w : Worker S) → IsCapped cap w → IsCapped cap (too_large g w)
  unfolding too_large
  too_large-IsCapped w c =
      let l = c.minimum in
      let n = c.current in
      let p = c.passed in
      let w0 = record w { last_bad_mtu = w.link_mtu } in
      let c0 : IsCapped cap w0 = record {
        four = c.four;
        minimum = l;
        same = c.same;
        current = n;
        passed = p;
        failed = n;
      } in
      let good = if leb w.link_mtu w.last_good_mtu then two_thirds w else w.last_good_mtu in
      let small : good ≤ cap = ground arith in
      let w1 = record w { last_bad_mtu = w.link_mtu; last_good_mtu = good } in
      let c1 : IsCapped cap w1 = record {
        four = c.four;
        minimum = l;
        same = c.same;
        current = n;
        passed = small;
        failed = n;
      } in
      let d = disable-IsCapped w0 c0 in
      if_both (λ (r : Worker S). IsCapped cap r) (w.last_good_mtu == min_mtu w) _ _
        (set-IsCapped (min_mtu w) (disable_mtu_disc g w0) l d) (set-IsCapped good w1 small c1)

  not_ok-IsCapped :
      (answer : Option ℕ) (w : Worker S) → IsCapped cap w → IsCapped cap (mtu_not_ok g answer w)
  unfolding mtu_not_ok
  not_ok-IsCapped answer w c =
      let P : Worker S → Type 0 = λ (r : Worker S). IsCapped cap r in
      let last : IsCapped cap (if is_inet6 w.proto then path_mtu g answer w else w) = rw c.four c in
      Option-split
        (λ o. P (elim o as (λ x. Worker S) [
          | none ↦ w
          | some _ ↦
              if not w.try_mtu
              then w
              else if is_inet w.proto
              then too_large g w
              else if is_inet6 w.proto
              then path_mtu g answer w
              else w
        ]))
        w.dtls_session (λ _. c)
        (λ s _.
          if_both P (not w.try_mtu) _ _ c
            (if_both P (is_inet w.proto) _ _ (too_large-IsCapped w c) last))

  ok-IsCapped : (w : Worker S) → IsCapped cap w → IsCapped cap (mtu_ok g w)
  unfolding mtu_ok
  ok-IsCapped w c =
      let P : Worker S → Type 0 = λ (r : Worker S). IsCapped cap r in
      let n = c.current in
      let f = c.failed in
      let w1 = record w { last_good_mtu = w.link_mtu } in
      let c1 : IsCapped cap w1 = record {
        four = c.four;
        minimum = c.minimum;
        same = c.same;
        current = n;
        passed = n;
        failed = f;
      } in
      if_both P (not w.try_mtu || is_inet6 w.proto) _ _ c (
        if_both P ((w.last_bad_mtu == (w.link_mtu + 1) % 2 ^ 32) || (w.last_bad_mtu == w.link_mtu))
          _ _ c (set-IsCapped ((w.link_mtu + w.last_bad_mtu) % 2 ^ 32 / 2) w1 (omega arith) c1))

  init-IsCapped :
      (mtu : ℕ) (w : Worker S)
      → mtu ≤ cap
      → IsCapped cap w
      → IsCapped cap (mtu_discovery_init g mtu w)
  unfolding mtu_discovery_init
  init-IsCapped mtu w small c =
      let again = λ (x : Worker S). record x { last_good_mtu = mtu; last_bad_mtu = mtu } in
      let Q : Worker S → Type 0 = λ (x : Worker S). IsCapped cap x in
      let e = if_both Q (leb mtu (min_mtu w)) _ _ (disable-IsCapped w c) c in
      record {
        four = e.four;
        minimum = e.minimum;
        same = e.same;
        current = e.current;
        passed = small;
        failed = small;
      }

  reduce-IsCapped :
      (pmtu : Option ℕ) (w : Worker S) → IsCapped cap w → IsCapped cap (reduce g pmtu w.link_mtu w)
  reduce-IsCapped none w c = c
  reduce-IsCapped (some max) w c =
      if_split (λ (r : Worker S). IsCapped cap r) (ltb 0 max && ltb max w.link_mtu) _ _
        (λ t. set-IsCapped max w (ground (arith, c.current)) c) (λ _. c)

  send-IsCapped :
      (answer : Option ℕ) (ret : Sent) (w : Worker S)
      → IsCapped cap w
      → IsCapped cap (after_send g answer ret w)
  unfolding after_send
  send-IsCapped answer large w c = not_ok-IsCapped answer w c
  send-IsCapped answer (negative n) w c =
      if_both (λ (r : Worker S). IsCapped cap r) (is_full w (negative n) && w.try_mtu) _ _
        (ok-IsCapped w c) c
  send-IsCapped answer (bytes n) w c =
      if_both (λ (r : Worker S). IsCapped cap r) (is_full w (bytes n) && w.try_mtu) _ _
        (ok-IsCapped w c) c

  step-IsCapped :
      (op : Op S) (w : Worker S) → IsOwn op → IsCapped cap w → IsCapped cap (step g op w)
  unfolding step set_up
  step-IsCapped (start_dtls s) w own c =
      let d = set-IsCapped w.adv_link_mtu w (ground (arith, c.same)) c in
      init-IsCapped _ (record (link_mtu_set g w.adv_link_mtu w) { dtls_session = _ }) d.current d
  step-IsCapped (packet ret answer) w own c = send-IsCapped answer ret w c
  step-IsCapped (dpd size too_big answer) w own c = elim own [ ]
  step-IsCapped (check pmtu) w own c = reduce-IsCapped pmtu w c
  step-IsCapped (other_dtls o) w own c = c

  -- On a channel that is not IPv6, where the advertised link MTU is at least MIN_MTU and none of the
  -- MTUs is above it: as long as the peer does not ask for an MTU by dead peer detection, the link MTU
  -- never goes above the advertised one, and that does not change.
  pub run-IsCapped :
      (ops : List (Op S)) (w : Worker S)
      → All IsOwn ops
      → IsCapped cap w
      → IsCapped cap (run g ops w)
  unfolding run
  run-IsCapped [] w own c = c
  run-IsCapped (op ∷ ops) w own c =
      run-IsCapped ops (step g op w) own.1 (step-IsCapped op w own.0 c)
