-- ===== src/Mtu/Settles.antt =====
-- The search for the MTU over IPv4 comes to an end (src/worker-vpn.c).
use ocserv.Prelude.{
  ℕ, zero, suc, ◌+◌, ◌/◌, ◌≤◌, ◌<◌, ◌≡◌, sym, ap, ◌∙◌, false, none, arith, if◌then◌else◌, ◌⊎◌, inl,
  inr,
}
use ocserv.Mtu.{Worker, Gnutls, is_inet, min_mtu, link_mtu_set, too_large, buffer_size}
use ocserv.Mtu.Search.{
  link_mtu_set-IsApplied, IsReady, mtu_ok-raises, mtu_ok-rests, mtu_not_ok-too_large, lowered,
  too_large-lowers, too_large-gives_up, probe, probes, probe-passes, probe-fails, IsSettled,
}

module _ {S : Type 0} (g : Gnutls S) (path adv : ℕ) where
  -- The range [last_good_mtu, last_bad_mtu) holds the largest MTU that passes.
  pub record IsNarrowed (w : Worker S) : Type 0 where
    pub ready : IsReady w
    pub room : min_mtu w ≤ path
    pub good : w.last_good_mtu ≤ path
    pub bad : path < w.last_bad_mtu
    pub below : w.link_mtu < w.last_bad_mtu
    pub high : w.last_bad_mtu ≤ buffer_size

  -- A success, with a range of more than one.
  pub raised-IsNarrowed :
      (w : Worker S)
      → IsNarrowed w
      → w.link_mtu ≤ path
      → w.link_mtu + 1 < w.last_bad_mtu
      → IsNarrowed (probe g path w)
        × ((probe g path w).last_good_mtu ≡ w.link_mtu)
        × ((probe g path w).last_bad_mtu ≡ w.last_bad_mtu)
        × ((probe g path w).link_mtu ≡ (w.link_mtu + w.last_bad_mtu) / 2)
  raised-IsNarrowed w i fits apart =
      let r = i.ready in
      let c = (w.link_mtu + w.last_bad_mtu) / 2 in
      let w1 = record w { last_good_mtu = w.link_mtu } in
      let s =
        link_mtu_set-IsApplied g c w1 (ground (arith, r.low, r.ordered)) (ground (arith, i.high)) in
      let e : probe g path w ≡ link_mtu_set g c w1 =
        ground (arith, probe-passes g path w fits, r.tries, mtu_ok-raises g w r apart i.high) in
      let m : min_mtu (link_mtu_set g c w1) ≡ min_mtu w =
        ap (λ b. if b then 1280 else 800) s.ipv6 in
      rw e (
        record {
          ready = record {
            tries = s.tries ∙ r.tries;
            proto = ap is_inet s.proto ∙ r.proto;
            session = s.session ∙ r.session;
            low = ground (arith, m, s.good, r.low, r.ordered);
            ordered = ground (arith, s.good, s.link, i.below);
            high = ground (arith, s.link, i.high);
          };
          room = ground (arith, m, i.room);
          good = ground (arith, s.good, fits);
          bad = ground (arith, s.bad, i.bad);
          below = ground (arith, s.bad, s.link);
          high = ground (arith, s.bad, i.high);
        },
        s.good,
        s.bad,
        s.link,
      )

  -- A failure, where the value to try next is known to be smaller.
  pub record IsLowered (w w' : Worker S) : Type 0 where
    pub ready : IsReady w'
    pub min : min_mtu w' ≡ min_mtu w
    pub link : w'.link_mtu ≡ lowered w
    pub good : w'.last_good_mtu ≡ lowered w
    pub bad : w'.last_bad_mtu ≡ w.link_mtu

  pub failed-IsLowered :
      (w : Worker S)
      → IsReady w
      → path < w.link_mtu
      → min_mtu w < w.last_good_mtu
      → min_mtu w ≤ lowered w
      → lowered w ≤ w.link_mtu
      → IsLowered w (probe g path w)
  failed-IsLowered w r over above low small =
      let w1 = record w { last_bad_mtu = w.link_mtu; last_good_mtu = lowered w } in
      let s = link_mtu_set-IsApplied g (lowered w) w1 low (ground (arith, r.high)) in
      let e : probe g path w ≡ link_mtu_set g (lowered w) w1 =
        probe-fails g path w over
        ∙ (mtu_not_ok-too_large g none w r ∙ too_large-lowers g w r above) in
      let m : min_mtu (link_mtu_set g (lowered w) w1) ≡ min_mtu w =
        ap (λ b. if b then 1280 else 800) s.ipv6 in
      rw e (record {
        ready = record {
          tries = s.tries ∙ r.tries;
          proto = ap is_inet s.proto ∙ r.proto;
          session = s.session ∙ r.session;
          low = ground (arith, m, s.good, low);
          ordered = ground (arith, s.good, s.link);
          high = ground (arith, s.link, r.high);
        };
        min = m;
        link = s.link;
        good = s.good;
        bad = s.bad;
      })

  -- Nothing changes at the largest MTU that passes, nor where discovery is off.
  pub rests-IsSettled :
      (w : Worker S)
      → IsReady w
      → w.link_mtu ≤ path
      → (w.last_bad_mtu ≡ w.link_mtu + 1) ⊎ (w.last_bad_mtu ≡ w.link_mtu)
      → (w.link_mtu ≡ path) ⊎ (w.link_mtu ≡ adv)
      → IsSettled g path adv w
  rests-IsSettled w r fits bad top = record {
    passes = fits;
    rests = ground (arith, probe-passes g path w fits, r.tries, mtu_ok-rests g w r bad);
    outcome = inl top;
  }

  pub off-IsSettled :
      (w : Worker S)
      → w.try_mtu ≡ false
      → w.link_mtu ≡ min_mtu w
      → min_mtu w ≤ path
      → IsSettled g path adv w
  off-IsSettled w off link room = record {
    passes = ground (arith, link);
    rests = ground (arith, probe-passes g path w (omega arith), off);
    outcome = inr (link, off);
  }

  pub gives_up-IsSettled :
      (w : Worker S)
      → IsReady w
      → path < w.link_mtu
      → w.last_good_mtu ≡ min_mtu w
      → min_mtu w ≤ path
      → IsSettled g path adv (probe g path w)
  gives_up-IsSettled w r over e room =
      let s = too_large-gives_up g w e in
      let p : probe g path w ≡ too_large g w =
        probe-fails g path w over ∙ mtu_not_ok-too_large g none w r in
      rw p (off-IsSettled (too_large g w) s.1 (s.0 ∙ sym s.2) (rw s.2 room))

  -- In so many rounds it is settled.
  abbrev pub Ends : ℕ → Worker S → Type 0
  Ends n w = IsSettled g path adv (probes g path n w)

  pub later : (n : ℕ) (w : Worker S) → Ends n w → Ends (suc n) w
  unfolding probes
  later zero w s = rw s.rests s
  later (suc n) w s = later n (probe g path w) s

  pub settled_in : (n : ℕ) (w : Worker S) → IsSettled g path adv w → Ends n w
  unfolding probes
  settled_in zero w s = s
  settled_in (suc n) w s = rw s.rests (settled_in n w s)
