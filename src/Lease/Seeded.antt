-- ===== src/Lease/Seeded.antt =====
-- The address that a client's seed names (get_ipv4_lease, src/ip-lease.c).
use mathlib.Core.Path.{ap}
use Prim.Native.Nat.{bit_or}
use ocserv.Prelude.{
  if◌then◌else◌, ℕ, suc, ◌≡◌, refl, ◌∙◌, true, not, none, some, List, [], ◌∷◌, arith, Bytes, length,
  AreOctets,
}
use ocserv.Prelude.Bits.{placed_unique}
use ocserv.Address.{af_inet}
use ocserv.Table.{Htable}
use ocserv.Lease.Entry.{
  Lease, Env, Ping, ok, masked, unmasked, joined, candidate, max_ip_tries, err_mem,
}
use ocserv.Lease.Pick4.{
  dynamic4, is_ipv4_ok, draw4, pick4, Net4, chosen_net, get_ipv4_lease, read_net4, assign4,
}
use ocserv.Lease.Network.{IsAddress, Suits}

-- The bits beside the mask are the same.
unfoldable pub SameHost : Bytes → Bytes → Bytes → Type 0
SameHost [] b m = Unit
SameHost (x ∷ a) [] m = Unit
SameHost (x ∷ a) (y ∷ b) [] = Unit
SameHost (x ∷ a) (y ∷ b) (z ∷ m) = (bit_or x z ≡ bit_or y z) × SameHost a b m

-- There is one candidate with the bits of the network and of the drawn number.
candidate_unique :
    (ip d n m : Bytes)
    → AreOctets ip
    → AreOctets d
    → AreOctets n
    → AreOctets m
    → length ip ≡ length m
    → length d ≡ length m
    → length n ≡ length m
    → masked ip m ≡ masked n m
    → SameHost ip d m
    → candidate (masked n m) m d ≡ ip
unfolding masked unmasked joined SameHost
candidate_unique [] [] n [] hi hd hn hm li ld ln inside same = refl
candidate_unique (p ∷ ip) (x ∷ d) (y ∷ n) (z ∷ m) hi hd hn hm li ld ln inside same =
    let first = placed_unique 8 p x y z hi.0 hd.0 hn.0 hm.0 (ground (arith, inside)) same.0 in
    let rest =
      candidate_unique ip d n m hi.1 hd.1 hn.1 hm.1 (omega (arith, li)) (omega (arith, ld))
        (omega (arith, ln)) (ground (arith, inside)) same.1 in
    ground (arith, first, rest)
candidate_unique [] (x ∷ d) n [] hi hd hn hm li ld ln inside same = absurd (omega (arith, ld))
candidate_unique [] d n (z ∷ m) hi hd hn hm li ld ln inside same = absurd (omega (arith, li))
candidate_unique (p ∷ ip) d n [] hi hd hn hm li ld ln inside same = absurd (omega (arith, li))
candidate_unique (p ∷ ip) [] n (z ∷ m) hi hd hn hm li ld ln inside same = absurd (omega (arith, ld))
candidate_unique (p ∷ ip) (x ∷ d) [] (z ∷ m) hi hd hn hm li ld ln inside same =
    absurd (omega (arith, ln))

module _ (ht : Htable Lease) (env : Env) (ping : Ping) (leases : List Lease) (n m seed : Bytes)
    (hn : IsAddress n) (hm : IsAddress m) (hs : IsAddress seed) where
  usable_lem :
      (ip : Bytes) → Suits ht ping leases n m ip → is_ipv4_ok ht leases ip (masked n m) m ≡ true
  unfolding is_ipv4_ok
  usable_lem ip fits = rw (fits.free, fits.usable) refl

  -- A round that draws a usable address ends the choice.
  pick4-usable :
      (k : ℕ) (last d ip : Bytes)
      → draw4 env seed (suc k) last ≡ some d
      → candidate (masked n m) m d ≡ ip
      → Suits ht ping leases n m ip
      → pick4 ht (suc k) env ping leases (masked n m) m seed last
        ≡ (ok, some (dynamic4 (masked n m) m ip))
  unfolding pick4
  pick4-usable k last d ip drawn made fits =
      rw (drawn, pick4, made, usable_lem ip fits, fits.remote, fits.silent) refl

  assign4-first :
      (ip : Bytes)
      → env.memory ≡ true
      → IsAddress ip
      → SameHost ip seed m
      → Suits ht ping leases n m ip
      → assign4 ht env ping leases (masked n m) m seed none
        ≡ (ok, some (dynamic4 (masked n m) m ip))
  unfolding assign4 draw4
  assign4-first ip memory hi same fits =
      let start = 0 ∷ 0 ∷ 0 ∷ 0 ∷ [] in
      let made =
        candidate_unique ip seed n m hi.1 hs.1 hn.1 hm.1 (omega (arith, hi.0, hm.0))
          (omega (arith, hs.0, hm.0)) (omega (arith, hn.0, hm.0)) fits.inside same in
      ap
        (λ b.
          if not b
          then (err_mem, none)
          else pick4 ht max_ip_tries env ping leases (masked n m) m seed start)
        memory
      ∙ pick4-usable 15 start seed ip refl made fits

  -- A client without an explicit address gets the address of the network whose other bits are those
  -- of the client's seed, under that address as the key of the table, if that address can be used:
  -- it is in no lease of the table, not reserved in the network, not the server's, and does not
  -- answer a ping; and if there is memory. So it keeps its address over connections.
  pub seed_address :
      (c : Net4) (tn tm ip : Bytes)
      → chosen_net c ≡ (some tn, some tm)
      → env.inet.pton af_inet tn ≡ some n
      → env.inet.pton af_inet tm ≡ some m
      → c.explicit_ipv4 ≡ none
      → env.memory ≡ true
      → IsAddress ip
      → SameHost ip seed m
      → Suits ht ping leases n m ip
      → (l : Lease) × (get_ipv4_lease ht env ping leases c seed ≡ (ok, some l))
        × (l.rip ≡ ip)
        × (l.sig ≡ ip)
        × (l.in_db ≡ true)
  unfolding get_ipv4_lease read_net4
  seed_address c tn tm ip chosen rn rm dynamic memory hi same fits =
      let opened : get_ipv4_lease ht env ping leases c seed
          ≡ assign4 ht env ping leases (masked n m) m seed none =
        rw (chosen, read_net4, rn, rm, dynamic) refl in
      (dynamic4 (masked n m) m ip, opened ∙ assign4-first ip memory hi same fits, refl, refl, refl)
