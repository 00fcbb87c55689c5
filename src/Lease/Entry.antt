-- ===== src/Lease/Entry.antt =====
-- A lease, the table of leases, and what the libraries answer (src/ip-lease.c, src/ip-lease.h).
-- An address is its 4 or 16 bytes; families and ports of the socket addresses are left out.
use Prim.Native.Nat.{bit_and, bit_or}
use ocserv.Prelude.{
  ℕ, ◌-◌, Bool, true, false, ◌&&◌, Option, none, some, List, [], ◌∷◌, Bytes, bytes_eq, ◌==◌, take,
}
use ocserv.Address.{Inet}
use ocserv.Table.{Htable}

-- struct ip_lease_st. `sig_len` is another name of `rip_len` in the source. `in_db` says that
-- `db` is set, `destructor` that unref_ip_lease is.
pub record Lease : Type 0 where
  pub sig : Bytes
  pub rip : Bytes
  pub rip_len : ℕ
  pub lip : Bytes
  pub prefix : ℕ
  pub in_db : Bool
  pub destructor : Bool

-- ip_lease_cmp, against a lease of the given length and signature
abbrev pub same_lease : ℕ → Bytes → Lease → Bool
same_lease len sig l = (l.rip_len == len) && bytes_eq l.sig sig

-- A zeroed lease: talloc_zero.
abbrev pub blank : Lease
blank = record {
  sig = [];
  rip = [];
  rip_len = 0;
  lip = [];
  prefix = 0;
  in_db = false;
  destructor = false;
}

-- The answers of the libraries to one call: inet_pton, the SHA1 hash, gnutls_rnd in the round
-- with so many tries left (before they are counted down), and talloc_zero.
pub record Env : Type 0 where
  pub inet : Inet
  pub sha1 : Bytes → Bytes
  pub rnd : ℕ → Option Bytes
  pub memory : Bool

-- What the network says: whether an address answers a ping.
abbrev pub Ping : Type 0
Ping = Bytes → Bool

-- 0, -1, ERR_MEM and ERR_NO_IP
pub data Code : Type 0 where
  ok fault err_mem err_no_ip : Code

abbrev pub max_ip_tries : ℕ
max_ip_tries = 16

abbrev pub fixed_ips : ℕ
fixed_ips = 5

-- a[i] &= m[i]
unfoldable pub masked : Bytes → Bytes → Bytes
masked [] m = []
masked (x ∷ a) [] = x ∷ a
masked (x ∷ a) (y ∷ m) = bit_and x y ∷ masked a m

-- a[i] &= ~m[i], in uint8_t
unfoldable pub unmasked : Bytes → Bytes → Bytes
unmasked [] m = []
unmasked (x ∷ a) [] = x ∷ a
unmasked (x ∷ a) (y ∷ m) = bit_and x (255 - y) ∷ unmasked a m

-- a[i] |= b[i]
unfoldable pub joined : Bytes → Bytes → Bytes
joined [] b = []
joined (x ∷ a) [] = x ∷ a
joined (x ∷ a) (y ∷ b) = bit_or x y ∷ joined a b

-- The candidate: its host part from the draw, the rest from the network.
abbrev pub candidate : Bytes → Bytes → Bytes → Bytes
candidate network mask drawn = joined (unmasked drawn mask) network

-- a[i] |= ~m[i]
unfoldable pub filled : Bytes → Bytes → Bytes
filled [] m = []
filled (x ∷ a) [] = x ∷ a
filled (x ∷ a) (y ∷ m) = bit_or x (255 - y) ∷ filled a m

-- ip_from_seed; it ends the process where the hash fails.
abbrev pub ip_from_seed : Env → Bytes → ℕ → Bytes
ip_from_seed env seed size = take size (env.sha1 seed)

module _ (ht : Htable Lease) where
  -- ip_lease_exists
  abbrev pub ip_lease_exists : List Lease → Bytes → ℕ → Bool
  ip_lease_exists leases ip len = elim (ht.get (same_lease len ip) leases) [
    | none ↦ false
    | some l ↦ true
  ]
