-- ===== src/Route/Tests.antt =====
-- Routes at concrete inputs (src/ip-util.c).
use ocserv.Prelude.{
  ℕ, ◌≡◌, refl, true, false, Option, none, some, [], ◌∷◌, ◌++◌, Bytes, bytes_eq, length, arith,
  ◌==◌, if◌then◌else◌,
}
use ocserv.Address.{Inet, Family, af_inet, af_inet6, af_other, has_char}
use ocserv.Mask.{prefix_to_mask}
use ocserv.Route.{
  Libc, zero_text, slash, ntohl, cut, ip_route_sanity_check, check_ipv4, write_mask,
  parse_uint_full, ipv4_route_to_cidr,
}
use ocserv.Route.Accepted.{IsRoute, sanity_check-IsRoute}
use ocserv.Route.Cidr.{to_cidr-sanity_check}

-- "10.0.0.0", "255.255.0.0" and "16"
abbrev addr_text : Bytes
addr_text = 49 ∷ 48 ∷ 46 ∷ 48 ∷ 46 ∷ 48 ∷ 46 ∷ 48 ∷ []

abbrev mask_text : Bytes
mask_text = 50 ∷ 53 ∷ 53 ∷ 46 ∷ 50 ∷ 53 ∷ 53 ∷ 46 ∷ 48 ∷ 46 ∷ 48 ∷ []

abbrev sixteen : Bytes
sixteen = 49 ∷ 54 ∷ []

abbrev known_pton : Family → Bytes → Option Bytes
known_pton af_inet s =
    if bytes_eq s addr_text
    then some (10 ∷ 0 ∷ 0 ∷ 0 ∷ [])
    else if bytes_eq s mask_text
    then some (255 ∷ 255 ∷ 0 ∷ 0 ∷ [])
    else if bytes_eq s zero_text
    then some (0 ∷ 0 ∷ 0 ∷ 0 ∷ [])
    else none
known_pton af_inet6 s = none
known_pton af_other s = none

pton-four : (a b : Bytes) → known_pton af_inet a ≡ some b → length b ≡ 4
pton-four a b h = ground arith

abbrev known_inet : Inet
known_inet = record {
  pton = known_pton;
  pton_inet-length = λ a {b} h. pton-four a b h;
  pton_inet6-length = λ a h. cc;
}

abbrev known_ntop : ℕ → Option Bytes
known_ntop m = if m == 4294901760 then some mask_text else none

known_ntop-back :
    (m : ℕ) (text : Bytes)
    → known_ntop m ≡ some text
    → (b : Bytes) × (known_pton af_inet text ≡ some b) × (ntohl b ≡ m)
unfolding ntohl bytes_eq
known_ntop-back m text h =
    let same : mask_text ≡ text = ground arith in
    let number : 4294901760 ≡ m = ground arith in (255 ∷ 255 ∷ 0 ∷ 0 ∷ [], rw (← same) refl, number)

zero-back : known_pton af_inet zero_text ≡ some (0 ∷ 0 ∷ 0 ∷ 0 ∷ [])
unfolding bytes_eq
zero-back = refl

abbrev lib : Libc
lib = record {
  inet = known_inet;
  strtoul = λ s. if bytes_eq s sixteen then (16, [], false) else (0, s, false);
  ntop = known_ntop;
  pton-ntop = known_ntop-back;
  pton-zero = zero-back;
  memory = true;
  memory_new = true;
}

sanity_check-IsRoute_example : IsRoute lib (addr_text ++ slash ∷ mask_text)
unfolding ip_route_sanity_check cut has_char check_ipv4 write_mask parse_uint_full prefix_to_mask
    bytes_eq
sanity_check-IsRoute_example =
    sanity_check-IsRoute lib (addr_text ++ slash ∷ sixteen) (addr_text ++ slash ∷ mask_text) refl

known_ntop-dot : (m : ℕ) (text : Bytes) → known_ntop m ≡ some text → has_char 46 text ≡ true
unfolding has_char
known_ntop-dot m text h = let same : mask_text ≡ text = ground arith in rw (← same) refl

-- "10.0.0.0/16" becomes "10.0.0.0/255.255.0.0", and that "10.0.0.0/16" again.
to_cidr-sanity_check_example :
    ipv4_route_to_cidr lib (addr_text ++ slash ∷ mask_text) ≡ some (addr_text ++ slash ∷ sixteen)
unfolding ip_route_sanity_check cut has_char check_ipv4 write_mask parse_uint_full prefix_to_mask
    bytes_eq
to_cidr-sanity_check_example =
    to_cidr-sanity_check lib addr_text sixteen (10 ∷ 0 ∷ 0 ∷ 0 ∷ [])
      (addr_text ++ slash ∷ mask_text) 16 known_ntop-dot refl refl refl refl refl refl refl refl
      refl refl
