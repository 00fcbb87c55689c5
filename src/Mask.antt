-- ===== src/Mask.antt =====
-- Network masks (src/ip-util.c). An IPv4 mask stands as the number that ntohl gives.
pub mod Bits
pub mod Prefix
pub mod Tests
use ocserv.Prelude.{
  ℕ, zero, suc, ◌+◌, ◌-◌, ◌*◌, ◌/◌, ◌%◌, ◌^◌, Bool, true, false, Option, none, some, List, [], ◌∷◌,
  Bytes, ◌==◌, leb, ltb, ◌||◌, if◌then◌else◌,
}

-- The loop of bit_count, for at most as many rounds as the number has bits: `none` stands for -1.
unfoldable pub count_bits : ℕ → ℕ → Bool → ℕ → Option ℕ
count_bits zero i seen_one c = some c
count_bits (suc n) i seen_one c =
    let one = count_bits n (i / 2) true (c + 1) in
    let other = count_bits n (i / 2) seen_one c in
    if i == 0 then some c else if i % 2 == 1 then one else if seen_one then none else other

-- bit_count, on a uint32_t
unfoldable pub bit_count : ℕ → Option ℕ
bit_count i = count_bits 32 i false 0

-- The mask in ipv4_prefix_to_strmask, before inet_ntop writes it: `none` stands for NULL.
unfoldable pub prefix_to_mask : ℕ → Option ℕ
prefix_to_mask prefix =
    if (prefix == 0) || ltb 32 prefix
    then none
    else some ((2 ^ 32 - 1) * 2 ^ (32 - prefix) % 2 ^ 32)

-- The bytes of s6_addr from some index on: the rounds of the loop, then what memset left.
unfoldable pub fill : ℕ → ℕ → Bytes
fill zero i = []
fill (suc n) i =
    (if i == 0 then 0 else if leb 8 i then 255 else 255 * 2 ^ (8 - i) % 256) ∷ fill n (i - 8)

-- ipv6_prefix_to_mask: `none` where it returns 0 and leaves the address alone.
unfoldable pub ipv6_prefix_to_mask : ℕ → Option Bytes
ipv6_prefix_to_mask prefix = if (prefix == 0) || ltb 128 prefix then none else some (fill 16 prefix)
