-- ===== src/Mtu/Rounds.antt =====
-- How many packets the search for the MTU over IPv4 takes (src/worker-vpn.c).
use ocserv.Prelude.{
  ℕ, zero, suc, ◌+◌, ◌*◌, ◌/◌, ◌≤◌, ◌<◌, ◌≡◌, refl, ◌∙◌, arith, ltb, leb, ◌==◌, ◌⊎◌, inl, inr,
  Bool-cases, leb→le, ltb→lt,
}
use ocserv.Mtu.{Worker, Gnutls, min_mtu, buffer_size}
use ocserv.Mtu.Search.{lowered, probe, probes}
use ocserv.Mtu.Settles.{
  IsNarrowed, raised-IsNarrowed, failed-IsLowered, rests-IsSettled, gives_up-IsSettled, Ends, later,
  settled_in,
}

-- 2 ^ k, and the rounds for a range of as many values.
unfoldable pub twice : ℕ → ℕ
twice zero = 1
twice (suc k) = 2 * twice k

unfoldable pub rounds_of : ℕ → ℕ
rounds_of zero = 0
rounds_of (suc k) = suc (suc (rounds_of k))

pub twice_14 : twice 14 ≡ buffer_size
unfolding twice
twice_14 = refl

module _ {S : Type 0} (g : Gnutls S) (path adv : ℕ) where
  abbrev pub Goal : ℕ → ℕ → Type 0
  Goal k n =
      (w : Worker S)
      → IsNarrowed g path adv w
      → w.last_bad_mtu ≤ w.last_good_mtu + twice k
      → (w.link_mtu ≡ w.last_good_mtu) ⊎ (w.link_mtu ≡ (w.last_good_mtu + w.last_bad_mtu) / 2)
      → Ends g path adv n w

  top-Ends :
      (n : ℕ) (w : Worker S)
      → IsNarrowed g path adv w
      → w.link_mtu ≤ path
      → w.last_bad_mtu ≡ w.link_mtu + 1
      → Ends g path adv n w
  top-Ends n w i fits e =
      let top : w.link_mtu ≡ path = ground (arith, e, i.bad) in
      settled_in g path adv n w (rests-IsSettled g path adv w i.ready fits (inl e) (inl top))

  -- A failure within the range.
  fallen-IsNarrowed :
      (w : Worker S)
      → IsNarrowed g path adv w
      → path < w.link_mtu
      → min_mtu w < w.last_good_mtu
      → IsNarrowed g path adv (probe g path w)
        × ((probe g path w).last_good_mtu ≡ w.last_good_mtu)
        × ((probe g path w).last_bad_mtu ≡ w.link_mtu)
        × ((probe g path w).link_mtu ≡ w.last_good_mtu)
  unfolding lowered
  fallen-IsNarrowed w i over above =
      let e : lowered w ≡ w.last_good_mtu = ground (arith, i.good) in
      let f =
        failed-IsLowered g path adv w i.ready over above (ground (arith, e))
          (ground (arith, e, i.good)) in
      (
        record {
          ready = f.ready;
          room = rw f.min i.room;
          good = ground (arith, f.good, e, i.good);
          bad = ground (arith, f.bad);
          below = ground (arith, f.link, f.bad, e, i.good);
          high = ground (arith, f.bad, i.ready.high);
        },
        f.good ∙ e,
        f.bad,
        f.link ∙ e,
      )

  -- In the middle of the range, a round halves it.
  middle-Ends :
      (k n : ℕ) (w : Worker S)
      → Goal k n
      → IsNarrowed g path adv w
      → w.last_bad_mtu ≤ w.last_good_mtu + 2 * twice k
      → w.link_mtu ≡ (w.last_good_mtu + w.last_bad_mtu) / 2
      → Ends g path adv (suc n) w
  unfolding probes
  middle-Ends k n w ih i gap mid = elim (Bool-cases (leb w.link_mtu path)) [
    | inl t ↦ elim (Bool-cases (w.last_bad_mtu == w.link_mtu + 1)) [
      | inl e ↦ top-Ends (suc n) w i (leb→le _ _ t) (ground arith)
      | inr e ↦
          let j = raised-IsNarrowed g path adv w i (leb→le _ _ t) (ground (arith, i.below)) in
          ih (probe g path w) j.0 (ground (arith, j.1, j.2, gap, mid))
            (inr (ground (arith, j.1, j.2, j.3)))
    ]
    | inr t ↦ elim (Bool-cases (ltb (min_mtu w) w.last_good_mtu)) [
      | inl e ↦
          let j = fallen-IsNarrowed w i (ground arith) (ltb→lt _ _ e) in
          ih (probe g path w) j.0 (ground (arith, j.1, j.2, gap, mid))
            (inl (ground (arith, j.1, j.3)))
      | inr e ↦ settled_in g path adv n (probe g path w) (
          gives_up-IsSettled g path adv w i.ready (ground arith) (ground (arith, i.ready.low))
            i.room)
    ]
  ]

  pub narrow-Ends : (k : ℕ) → Goal k (rounds_of k)
  unfolding twice rounds_of probes
  narrow-Ends zero w i gap at =
      top-Ends 0 w i (ground (arith, i.below, i.good)) (ground (arith, i.below, i.ready.ordered))
  narrow-Ends (suc k) w i gap (inr mid) =
      later g path adv (suc (rounds_of k)) w
        (middle-Ends k (rounds_of k) w (narrow-Ends k) i gap mid)
  narrow-Ends (suc k) w i gap (inl e) = elim (Bool-cases (w.last_bad_mtu == w.link_mtu + 1)) [
    | inl t ↦ top-Ends (rounds_of (suc k)) w i (ground (arith, i.good)) (ground arith)
    | inr t ↦
        let j =
          raised-IsNarrowed g path adv w i (ground (arith, i.good)) (ground (arith, i.below)) in
        middle-Ends k (rounds_of k) (probe g path w) (narrow-Ends k) j.0
          (ground (arith, j.1, j.2, gap)) (ground (arith, j.1, j.2, j.3))
  ]
