-- ===== src/Ban/Local.antt =====
-- The test for the addresses of the server's own networks (if_address_test_local, src/main-ban.c).
use Prim.Native.Nat.{bit_and}
use ocserv.Prelude.{Bool, true, false, ◌&&◌, List, [], ◌∷◌, Bytes, bytes_eq, if◌then◌else◌}
use ocserv.Address.{af_inet, af_inet6, af_other, Storage, family_eq}

-- if_address_st
pub record IfAddress : Type 0 where
  pub if_addr : Storage
  pub if_netmask : Storage

-- The bytes of an address under those of a mask.
unfoldable pub mask_bytes : Bytes → Bytes → Bytes
mask_bytes [] m = []
mask_bytes (x ∷ xs) [] = []
mask_bytes (x ∷ xs) (m ∷ ms) = bit_and x m ∷ mask_bytes xs ms

-- Words are equal under a mask exactly when their bytes are.
unfoldable pub test_local_ipv4 : Storage → Storage → Storage → Bool
unfolding mask_bytes
test_local_ipv4 remote local network =
    bytes_eq (mask_bytes local.sin_addr network.sin_addr)
      (mask_bytes remote.sin_addr network.sin_addr)

-- The loop over the four words of an IPv6 address, taken as its sixteen bytes.
unfoldable pub test_local_ipv6 : Storage → Storage → Storage → Bool
unfolding mask_bytes
test_local_ipv6 remote local network =
    bytes_eq (mask_bytes local.sin6_addr network.sin6_addr)
      (mask_bytes remote.sin6_addr network.sin6_addr)

-- One round of the loop: whether this interface makes the address local.
unfoldable pub on_interface : Storage → IfAddress → Bool
unfolding test_local_ipv4 test_local_ipv6 family_eq
on_interface addr ifa = family_eq ifa.if_addr.family addr.family && elim addr.family [
  | af_inet ↦ test_local_ipv4 addr ifa.if_addr ifa.if_netmask
  | af_inet6 ↦ test_local_ipv6 addr ifa.if_addr ifa.if_netmask
  | af_other ↦ false
]

unfoldable pub if_address_test_local : List IfAddress → Storage → Bool
unfolding on_interface
if_address_test_local [] addr = false
if_address_test_local (ifa ∷ rest) addr =
    if on_interface addr ifa then true else if_address_test_local rest addr
