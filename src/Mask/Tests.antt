-- ===== src/Mask/Tests.antt =====
-- Masks at concrete inputs (src/ip-util.c).
use ocserv.Prelude.{ℕ, ◌≡◌, refl, some, ◌++◌, ◌∷◌, replicate, Bytes}
use ocserv.Mask.{bit_count, prefix_to_mask}
use ocserv.Mask.Prefix.{bit_count-prefix_to_mask}

-- 255.255.0.0
abbrev net_mask : ℕ
net_mask = 4294901760

-- 0.255.255.0
abbrev inner_mask : ℕ
inner_mask = 16776960

-- ffff:ffff:ffff:ffff:8000::
abbrev mask65 : Bytes
mask65 = replicate 8 255 ++ 128 ∷ replicate 7 0

sixteen_counted : bit_count net_mask ≡ some 16
unfolding prefix_to_mask
sixteen_counted = bit_count-prefix_to_mask 16 net_mask refl
