-- ===== src/Route.antt =====
-- Routes as text (src/ip-util.c).
mod Accepted
mod Cidr
mod Tests
use ocserv.Prelude.{
  ℕ, zero, suc, ◌+◌, ◌*◌, ◌/◌, ◌%◌, ◌^◌, ◌<◌, ◌≡◌, Bool, true, false, not, Option, none, some, List,
  [], ◌∷◌, Bytes, ◌==◌, ltb, ◌||◌, ◌++◌, bytes_eq, get_or, if◌then◌else◌,
}
use ocserv.Address.{Inet, Family, af_inet, af_inet6, has_char}
use ocserv.Mask.{bit_count, prefix_to_mask}

-- "default", "0.0.0.0" and the characters that are looked for
abbrev pub default_text : Bytes
default_text = 100 ∷ 101 ∷ 102 ∷ 97 ∷ 117 ∷ 108 ∷ 116 ∷ []

abbrev pub zero_text : Bytes
zero_text = 48 ∷ 46 ∷ 48 ∷ 46 ∷ 48 ∷ 46 ∷ 48 ∷ []

abbrev pub slash : ℕ
slash = 47

abbrev pub colon : ℕ
colon = 58

abbrev pub dot : ℕ
dot = 46

-- The number of a struct in_addr: ntohl of s_addr.
unfoldable pub ntohl : Bytes → ℕ
ntohl b = get_or b 0 0 * 2 ^ 24 + get_or b 1 0 * 2 ^ 16 + get_or b 2 0 * 2 ^ 8 + get_or b 3 0

-- What the C library and talloc answer. `strtoul` gives the value, what it leaves unread, and
-- whether it sets errno; `ntop` is inet_ntop and the copy of its text, for an IPv4 address.
pub record Libc : Type 0 where
  pub inet : Inet
  pub strtoul : Bytes → ℕ × Bytes × Bool
  pub ntop : ℕ → Option Bytes
  -- what inet_ntop writes, inet_pton reads back
  pub pton-ntop :
      (m : ℕ) (text : Bytes)
      → ntop m ≡ some text
      → (b : Bytes) × (inet.pton af_inet text ≡ some b) × (ntohl b ≡ m)
  pub pton-zero : inet.pton af_inet zero_text ≡ some (0 ∷ 0 ∷ 0 ∷ 0 ∷ [])
  -- there is memory for the copy of the address, and for the new route
  pub memory : Bool
  pub memory_new : Bool

-- The text before the first '/' and the text after it, if there is one.
unfoldable pub cut : Bytes → Option (Bytes × Bytes)
cut [] = none
cut (c ∷ s) =
    let rest = cut s in
    if c == slash
    then some ([], s)
    else elim rest [ none ↦ none | some (before, after) ↦ some (c ∷ before, after) ]

-- The text up to the first dot, and the rest.
unfoldable pub at_dot : Bytes → Option (Bytes × Bytes)
at_dot [] = none
at_dot (c ∷ s) =
    let rest = at_dot s in
    if c == dot
    then some ([], s)
    else elim rest [ none ↦ none | some (before, after) ↦ some (c ∷ before, after) ]

-- "%d", for a number below 100
abbrev pub decimal : ℕ → Bytes
decimal n = if ltb n 10 then (48 + n) ∷ [] else (48 + n / 10) ∷ (48 + n % 10) ∷ []

module _ (lib : Libc) where
  -- ipv4_mask_to_int: `none` stands for -1.
  unfoldable pub ipv4_mask_to_int : Bytes → Option ℕ
  ipv4_mask_to_int text = elim (lib.inet.pton af_inet text) [
    | none ↦ none
    | some b ↦ bit_count (ntohl b)
  ]

  -- parse_uint_full, on a string that is not NULL
  unfoldable pub parse_uint_full : Bytes → ℕ → Option ℕ
  parse_uint_full [] max = none
  parse_uint_full (c ∷ s) max =
      let (val, left, errno) = lib.strtoul (c ∷ s) in
      if errno || not (bytes_eq left []) || ltb max val then none else some val

  -- The end of ip_route_sanity_check: a numeric prefix of an IPv4 route becomes a mask.
  unfoldable pub write_mask : Bytes → ℕ → Option Bytes
  write_mask addr prefix =
      if prefix == 0
      then (if lib.memory_new then some (addr ++ slash ∷ zero_text) else none)
      else elim (prefix_to_mask prefix) [
        | none ↦ none
        | some m ↦ elim (lib.ntop m) [
          | none ↦ none
          | some text ↦ if lib.memory_new then some (addr ++ slash ∷ text) else none
        ]
      ]

  unfoldable pub check_ipv6 : Bytes → Bytes → Bytes → Option Bytes
  check_ipv6 route addr prefix = elim (lib.inet.pton af_inet6 addr) [
    | none ↦ none
    | some b ↦ elim (parse_uint_full prefix 128) [ none ↦ none | some p ↦ some route ]
  ]

  unfoldable pub check_ipv4 : Bytes → Bytes → Bytes → Option Bytes
  check_ipv4 route addr prefix = elim (lib.inet.pton af_inet addr) [
    | none ↦ none
    | some b ↦
        if has_char dot prefix
        then elim (ipv4_mask_to_int prefix) [ none ↦ none | some d ↦ some route ]
        else elim (parse_uint_full prefix 32) [ none ↦ none | some p ↦ write_mask addr p ]
  ]

  -- ip_route_sanity_check: the route as it leaves it, `none` for a negative result.
  unfoldable pub ip_route_sanity_check : Bytes → Option Bytes
  ip_route_sanity_check route =
      if bytes_eq route default_text then some route else elim (cut route) [
        | none ↦ none
        | some (addr, prefix) ↦
            if not lib.memory
            then none
            else if has_char colon route
            then check_ipv6 route addr prefix
            else check_ipv4 route addr prefix
      ]

  abbrev pub copy : Bytes → Option Bytes
  copy text = if lib.memory_new then some text else none

  -- An IPv4 route, as its address and its mask.
  abbrev pub mask_to_cidr : Bytes → Bytes → Option Bytes
  mask_to_cidr addr mask = elim (ipv4_mask_to_int mask) [
    | none ↦ none
    | some prefix ↦
        if (prefix == 0) || ltb 32 prefix then none else copy (addr ++ slash ∷ decimal prefix)
  ]

  -- ipv4_route_to_cidr: `none` stands for NULL.
  unfoldable pub ipv4_route_to_cidr : Bytes → Option Bytes
  ipv4_route_to_cidr route = elim (at_dot route) [
    | none ↦ copy route
    | some (before, after) ↦ elim (cut after) [
      | none ↦ none
      | some (middle, mask) ↦
          if not (has_char dot mask) then copy route else mask_to_cidr (before ++ dot ∷ middle) mask
    ]
  ]
