-- ===== src/Lease/Network.antt =====
-- Where a dynamic IPv4 address lies (get_ipv4_lease, src/ip-lease.c).
use mathlib.Core.Path.{subst}
use ocserv.Prelude.{
  ℕ, zero, suc, ◌-◌, ◌≡◌, refl, sym, ◌∙◌, inl, inr, true, false, not, ◌&&◌, ◌||◌, none, some, List,
  [], ◌∷◌, arith, Bytes, ◌==◌, bytes_eq, length, take, AreOctets, Bool-cases, Option-cases, ltb,
}
use ocserv.Prelude.Bits.{placed_and}
use ocserv.Address.{sockaddr_in_size, af_inet}
use ocserv.Table.{Htable}
use ocserv.Lease.Entry.{
  Lease, Env, Ping, ok, masked, unmasked, joined, filled, candidate, ip_lease_exists, max_ip_tries,
  fixed_ips,
}
use ocserv.Lease.Pick4.{
  is_ipv4_p2p_mask, local4, is_ipv4_ok, draw4, pick4, Net4, chosen_net, get_ipv4_lease, read_net4,
  assign4,
}

-- Bytes of the size of an address.
abbrev pub IsAddress : Bytes → Type 0
IsAddress b = (length b ≡ 4) × AreOctets b

-- What the draws are made from has that size.
pub record IsSound (env : Env) : Type 0 where
  pub rnd : (n : ℕ) (b : Bytes) → env.rnd n ≡ some b → IsAddress b
  pub sha1 : (b : Bytes) → IsAddress (take 4 (env.sha1 b))

-- The candidate has the network's bits under the mask.
masked-candidate :
    (d n m : Bytes)
    → AreOctets d
    → AreOctets n
    → AreOctets m
    → length d ≡ length m
    → length n ≡ length m
    → masked (candidate (masked n m) m d) m ≡ masked n m
unfolding masked unmasked joined
masked-candidate [] [] [] hd hn hm ld ln = refl
masked-candidate (x ∷ d) (y ∷ n) (z ∷ m) hd hn hm ld ln =
    let first = placed_and 8 x y z hd.0 hn.0 hm.0 in
    let rest = masked-candidate d n m hd.1 hn.1 hm.1 (omega (arith, ld)) (omega (arith, ln)) in
    ground (arith, first, rest)
masked-candidate [] [] (z ∷ m) hd hn hm ld ln = absurd (omega (arith, ld))
masked-candidate [] (y ∷ n) [] hd hn hm ld ln = absurd (omega (arith, ln))
masked-candidate [] (y ∷ n) (z ∷ m) hd hn hm ld ln = absurd (omega (arith, ld))
masked-candidate (x ∷ d) [] [] hd hn hm ld ln = absurd (omega (arith, ld))
masked-candidate (x ∷ d) [] (z ∷ m) hd hn hm ld ln = absurd (omega (arith, ln))
masked-candidate (x ∷ d) (y ∷ n) [] hd hn hm ld ln = absurd (omega (arith, ld))

draw4-IsAddress :
    (env : Env) (seed : Bytes) (left : ℕ) (last d : Bytes)
    → IsSound env
    → IsAddress seed
    → draw4 env seed left last ≡ some d
    → IsAddress d
unfolding draw4
draw4-IsAddress env seed left last d sound hs h = elim (Bool-cases (left == max_ip_tries)) [
  | inl first ↦ let same : seed ≡ d = ground arith in subst IsAddress same hs
  | inr later ↦ elim (Bool-cases (ltb left (max_ip_tries - fixed_ips))) [
    | inl random ↦ sound.rnd left d (ground arith)
    | inr seeded ↦
        let same : take 4 (env.sha1 last) ≡ d = ground arith in
        subst IsAddress same (sound.sha1 last)
  ]
]

-- What is asked of the address of a dynamic lease.
pub record Suits (ht : Htable Lease) (ping : Ping) (leases : List Lease) (n m ip : Bytes)
    : Type 0 where
  pub inside : masked ip m ≡ masked n m
  pub usable :
      (is_ipv4_p2p_mask m
        || (not (bytes_eq ip (masked n m)) && not (bytes_eq ip (filled (masked n m) m))))
      ≡ true
  pub remote : bytes_eq (local4 (masked n m) m) ip ≡ false
  pub free : ip_lease_exists ht leases ip sockaddr_in_size ≡ false
  pub silent : ping ip ≡ false

module _ (ht : Htable Lease) (env : Env) (ping : Ping) (leases : List Lease) (n m seed : Bytes)
    (sound : IsSound env) (hn : IsAddress n) (hm : IsAddress m) (hs : IsAddress seed) where
  pick4-Suits :
      (tries : ℕ) (last : Bytes) (l : Lease)
      → pick4 ht tries env ping leases (masked n m) m seed last ≡ (ok, some l)
      → Suits ht ping leases n m l.rip
  unfolding pick4 is_ipv4_ok
  pick4-Suits zero last l h = absurd (ground arith)
  pick4-Suits (suc k) last l h = elim (Option-cases (draw4 env seed (suc k) last)) [
    | inl nothing ↦ absurd (ground arith)
    | inr (d, drawn) ↦
        let ip = candidate (masked n m) m d in
        let hd = draw4-IsAddress env seed (suc k) last d sound hs drawn in
        let inside =
          masked-candidate d n m hd.1 hn.1 hm.1 (omega (arith, hd.0, hm.0))
            (omega (arith, hn.0, hm.0)) in
        elim (Bool-cases (is_ipv4_ok ht leases ip (masked n m) m)) [
          | inr bad ↦ pick4-Suits k ip l (ground arith)
          | inl good ↦ elim (Bool-cases (bytes_eq (local4 (masked n m) m) ip)) [
            | inl mine ↦ pick4-Suits k ip l (ground arith)
            | inr other ↦ elim (Bool-cases (ping ip)) [
              | inl answered ↦ pick4-Suits k ip l (ground arith)
              | inr quiet ↦
                  let chosen : ip ≡ l.rip = ground arith in
                  let fits : Suits ht ping leases n m ip = record {
                    inside = inside;
                    usable = ground arith;
                    remote = other;
                    free = ground arith;
                    silent = quiet;
                  } in
                  subst (Suits ht ping leases n m) chosen fits
            ]
          ]
        ]
  ]

  assign4-Suits :
      (l : Lease)
      → assign4 ht env ping leases (masked n m) m seed none ≡ (ok, some l)
      → Suits ht ping leases n m l.rip
  unfolding assign4
  assign4-Suits l h = pick4-Suits max_ip_tries (0 ∷ 0 ∷ 0 ∷ 0 ∷ []) l (ground arith)

  -- A dynamic IPv4 lease lies in the chosen network: the network's bits are those of the
  -- configuration, the address is not the network's or the broadcast address (but in a /31), nor
  -- the server's own address in it, no lease registered in the table has it, and it did not answer
  -- a ping. Assumed is that the random generator, the hash and the parsed texts give octets.
  pub get_ipv4_lease-Suits :
      (c : Net4) (tn tm : Bytes) (l : Lease)
      → chosen_net c ≡ (some tn, some tm)
      → env.inet.pton af_inet tn ≡ some n
      → env.inet.pton af_inet tm ≡ some m
      → c.explicit_ipv4 ≡ none
      → get_ipv4_lease ht env ping leases c seed ≡ (ok, some l)
      → Suits ht ping leases n m l.rip
  unfolding get_ipv4_lease read_net4
  get_ipv4_lease-Suits c tn tm l chosen rn rm dynamic h =
      let opened : get_ipv4_lease ht env ping leases c seed
          ≡ assign4 ht env ping leases (masked n m) m seed none =
        rw (chosen, read_net4, rn, rm, dynamic) refl in
      assign4-Suits l (sym opened ∙ h)
