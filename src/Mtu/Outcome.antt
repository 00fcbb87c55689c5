-- ===== src/Mtu/Outcome.antt =====
-- The search for the MTU over IPv4 ends, from the start of a DTLS session (src/worker-vpn.c).
use ocserv.Prelude.{
  ℕ, zero, suc, ◌+◌, ◌*◌, ◌/◌, ◌≤◌, ◌<◌, ◌≡◌, refl, sym, ap, ◌∙◌, true, false, arith, leb,
  if◌then◌else◌, inl, inr, Bool-cases, if_split, leb→le,
}
use ocserv.Mtu.{
  Worker, Gnutls, is_inet, min_mtu, buffer_size, link_mtu_set, disable_mtu_disc, mtu_discovery_init,
}
use ocserv.Mtu.Events.{set_up}
use ocserv.Mtu.Search.{
  IsReady, lowered, probe, probes, IsSettled, min_mtu-small, has_session, link_mtu_set-IsApplied,
}
use ocserv.Mtu.Settles.{
  IsNarrowed, off-IsSettled, failed-IsLowered, rests-IsSettled, Ends, later, settled_in,
}
use ocserv.Mtu.Rounds.{twice_14, rounds_of, narrow-Ends}

module _ {S : Type 0} (g : Gnutls S) (path adv : ℕ) where
  -- Until a packet passes, the MTU falls by a third.
  fall_rounds : ℕ → ℕ
  fall_rounds zero = rounds_of 14
  fall_rounds (suc j) = suc (fall_rounds j)

  lift_rounds :
      (j : ℕ) (w : Worker S) → Ends g path adv (rounds_of 14) w → Ends g path adv (fall_rounds j) w
  unfolding fall_rounds
  lift_rounds zero w h = h
  lift_rounds (suc j) w h = later g path adv (fall_rounds j) w (lift_rounds j w h)

  -- 800 times a power of three halves, rounded up.
  reach : ℕ → ℕ
  reach zero = 800
  reach (suc j) = (3 * reach j + 2) / 2

  fall-Ends :
      (j : ℕ) (w : Worker S)
      → IsReady w
      → min_mtu w ≤ path
      → path < w.link_mtu
      → w.last_good_mtu ≡ w.link_mtu
      → w.link_mtu ≤ reach j
      → Ends g path adv (fall_rounds j) w
  unfolding probes reach fall_rounds lowered
  fall-Ends zero w r room over e low = absurd (omega (arith, min_mtu-small w))
  fall-Ends (suc j) w r room over e low =
      let m = min_mtu-small w in
      let f = failed-IsLowered g path adv w r over (omega arith) (ground arith) (ground arith) in
      elim (Bool-cases (leb (probe g path w).link_mtu path)) [
        | inl t ↦
            let i : IsNarrowed g path adv (probe g path w) = record {
              ready = f.ready;
              room = rw f.min room;
              good = ground (arith, f.good, f.link);
              bad = ground (arith, f.bad);
              below = ground (arith, f.bad);
              high = ground (arith, f.bad, r.high);
            } in
            lift_rounds j (probe g path w) (
              narrow-Ends g path adv 14 (probe g path w) i (ground (arith, f.bad, twice_14))
                (inl (f.link ∙ sym f.good)))
        | inr t ↦
            fall-Ends j (probe g path w) f.ready (rw f.min room) (ground arith)
              (f.good ∙ sym f.link) (ground (arith, f.link))
      ]

  first-Ends :
      (w : Worker S)
      → IsReady w
      → min_mtu w ≤ path
      → w.last_good_mtu ≡ w.link_mtu
      → w.last_bad_mtu ≡ w.link_mtu
      → w.link_mtu ≡ adv
      → Ends g path adv (fall_rounds 8) w
  unfolding reach
  first-Ends w r room good bad link = elim (Bool-cases (leb w.link_mtu path)) [
    | inl t ↦
        settled_in g path adv (fall_rounds 8) w
          (rests-IsSettled g path adv w r (leb→le _ _ t) (inr bad) (inr link))
    | inr t ↦ fall-Ends 8 w r room (ground arith) good (ground (arith, r.high))
  ]

  off-Ends :
      (w : Worker S)
      → w.try_mtu ≡ false
      → w.link_mtu ≡ min_mtu w
      → min_mtu w ≤ path
      → Ends g path adv (fall_rounds 8) w
  off-Ends w off link room =
      settled_in g path adv (fall_rounds 8) w (off-IsSettled g path adv w off link room)

  init-Ends :
      (w : Worker S)
      → is_inet w.proto ≡ true
      → w.try_mtu ≡ true
      → has_session w.dtls_session ≡ true
      → w.link_mtu ≡ adv
      → w.adv_link_mtu ≡ adv
      → min_mtu w ≤ adv
      → adv ≤ buffer_size
      → min_mtu w ≤ path
      → Ends g path adv (fall_rounds 8) (mtu_discovery_init g w.link_mtu w)
  unfolding mtu_discovery_init disable_mtu_disc
  init-Ends w four tries session link same low high room =
      let w1 = record w { mtu_disc = false } in
      let a = link_mtu_set-IsApplied g w.adv_link_mtu w1 (rw same low) (rw same high) in
      let m : min_mtu (link_mtu_set g w.adv_link_mtu w1) ≡ min_mtu w =
        ap (λ b. if b then 1280 else 800) a.ipv6 in
      if_split
        (λ (x : Worker S).
          Ends g path adv (fall_rounds 8)
            (record x { last_good_mtu = w.link_mtu; last_bad_mtu = w.link_mtu }))
        _ _ _ (λ t. off-Ends _ refl (ground (arith, a.link, m)) (rw m room))
        (λ t.
          first-Ends _
            (record {
              tries = tries;
              proto = four;
              session = session;
              low = ground arith;
              ordered = ground arith;
              high = ground arith;
            })
            room refl refl link)

-- A DTLS session that starts over IPv4, with discovery on and an advertised MTU from MIN_MTU up to the
-- size of the buffer, on a path that passes the least MTU: after 36 packets of full size the search has ended. Packets pass, and
-- one more changes nothing. The MTU is the largest that passes, or the advertised one, or the least,
-- with discovery off.
pub probes-IsSettled :
    {S : Type 0} (g : Gnutls S) (s : S) (path : ℕ) (w : Worker S)
    → is_inet w.proto ≡ true
    → w.try_mtu ≡ true
    → min_mtu w ≤ w.adv_link_mtu
    → w.adv_link_mtu ≤ buffer_size
    → min_mtu w ≤ path
    → IsSettled g path w.adv_link_mtu (probes g path 36 (set_up g s w))
unfolding set_up fall_rounds rounds_of
probes-IsSettled g s path w four tries low high room =
    let a = link_mtu_set-IsApplied g w.adv_link_mtu w low high in
    let m : min_mtu (link_mtu_set g w.adv_link_mtu w) ≡ min_mtu w =
      ap (λ b. if b then 1280 else 800) a.ipv6 in
    init-Ends g path w.adv_link_mtu _ (ap is_inet a.proto ∙ four) (a.tries ∙ tries) refl a.link
      a.adv (rw m low) high (rw m room)
