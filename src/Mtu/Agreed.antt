-- ===== src/Mtu/Agreed.antt =====
-- The link MTU that CONNECT agrees on (src/worker-vpn.c).
use ocserv.Prelude.{
  ℕ, ◌≤◌, ◌<◌, ◌≡◌, refl, Bool, ◌&&◌, Option, none, some, arith, ltb, leb, ◌==◌, ◌||◌,
  if◌then◌else◌, ◌⊎◌, inl, inr, if_both, Bool-cases,
}
use ocserv.Mtu.{Worker, Gnutls, min_mtu, link_mtu_set, buffer_size}
use ocserv.Mtu.Events.{Overheads, Request, peer_mtu, reduce, negotiate, calc_mtu_values, least}

set-mtu : {S : Type 0} (g : Gnutls S) (n : ℕ) (w : Worker S) → (link_mtu_set g n w).mtu ≡ w.mtu
unfolding link_mtu_set
set-mtu {S} g n w =
    if_both (λ (r : Worker S). r.mtu ≡ w.mtu)
      (((w.link_mtu == n) || ltb buffer_size n) || ltb n (min_mtu w)) _ _ refl refl

reduce-mtu :
    {S : Type 0} (g : Gnutls S) (pmtu : Option ℕ) (limit : ℕ) (w : Worker S)
    → (reduce g pmtu limit w).mtu ≡ w.mtu
reduce-mtu g none limit w = refl
reduce-mtu {S} g (some max) limit w =
    if_both (λ (r : Worker S). r.mtu ≡ w.mtu) (ltb 0 max && ltb max limit) _ _ (set-mtu g max w)
      refl

peer_mtu_bounds :
    {S : Type 0} (o : Overheads) (req : Request) (w : Worker S)
    → (peer_mtu o req w ≤ w.mtu)
      × (least (min_mtu w) w.mtu ≤ peer_mtu o req w)
      × ((peer_mtu o req w ≤ req.link_mtu) ⊎ (req.link_mtu < min_mtu w))
unfolding peer_mtu
peer_mtu_bounds o req w = elim (Bool-cases (leb (min_mtu w) req.link_mtu)) [
  | inl t ↦ (ground arith, ground arith, inl (ground arith))
  | inr t ↦ (ground arith, ground arith, inr (ground arith))
]

-- CONNECT: whatever get_pmtu_approx answers, the link MTU is the advertised one, and what it is
-- without that answer; it is at most what is configured, at most what the peer names, unless that is
-- below MIN_MTU, and at least the lesser of MIN_MTU and what is configured.
pub negotiate-agreed :
    {S : Type 0} (g : Gnutls S) (o : Overheads) (udp : Bool) (user_mtu : ℕ) (req : Request)
    (pmtu : Option ℕ) (w : Worker S)
    → let r = negotiate g o udp user_mtu req pmtu w in
      let configured = if ltb 0 user_mtu then user_mtu else w.mtu in
      (r.link_mtu ≡ r.adv_link_mtu)
      × (r.link_mtu ≡ (negotiate g o udp user_mtu req none w).link_mtu)
      × (r.link_mtu ≤ configured)
      × (least (min_mtu w) configured ≤ r.link_mtu)
      × ((r.link_mtu ≤ req.link_mtu) ⊎ (req.link_mtu < min_mtu w))
unfolding negotiate calc_mtu_values
negotiate-agreed g o udp user_mtu req pmtu w =
    let w1 = record w { mtu = if ltb 0 user_mtu then user_mtu else w.mtu } in
    let p = peer_mtu o req w1 in
    let e = reduce-mtu g pmtu p (record w1 { mtu = p }) in
    let b = peer_mtu_bounds o req w1 in (refl, e, rw e b.0, rw e b.1, rw e b.2)
