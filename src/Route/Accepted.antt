-- ===== src/Route/Accepted.antt =====
-- The form of the routes that ip_route_sanity_check lets through (src/ip-util.c).
use mathlib.Core.Path.{subst}
use ocserv.Prelude.{
  ◌≡◌, ◌≢◌, refl, sym, ◌∙◌, inl, inr, false, some, [], ◌∷◌, ◌≤◌, true, ℕ, Bytes, ◌==◌, ◌++◌,
  bytes_eq, bytes_eq_sound, Bool-cases, Option-cases, arith,
}
use ocserv.Address.{af_inet, af_inet6, has_char}
use ocserv.Mask.{bit_count, count_bits, prefix_to_mask}
use ocserv.Mask.Prefix.{bit_count-prefix_to_mask}
use ocserv.Route.{
  default_text, zero_text, slash, colon, dot, ntohl, Libc, cut, ipv4_mask_to_int, parse_uint_full,
  write_mask, check_ipv6, check_ipv4, ip_route_sanity_check,
}

-- A route that is fit for a command: the keyword, or an address and a prefix of its kind.
pub data IsRoute (lib : Libc) : Bytes → Type 0 where
  keyword : IsRoute lib default_text
  ipv6 :
      (addr prefix b : Bytes) (p : ℕ)
      → lib.inet.pton af_inet6 addr ≡ some b
      → prefix ≢ []
      → lib.strtoul prefix ≡ (p, [], false)
      → p ≤ 128
      → IsRoute lib (addr ++ slash ∷ prefix)
  ipv4 :
      (addr mask b : Bytes) (d : ℕ)
      → lib.inet.pton af_inet addr ≡ some b
      → ipv4_mask_to_int lib mask ≡ some d
      → IsRoute lib (addr ++ slash ∷ mask)

cut_joins : (s before after : Bytes) → cut s ≡ some (before, after) → s ≡ before ++ slash ∷ after
unfolding cut
cut_joins [] before after h = cc
cut_joins (c ∷ s) before after h = elim (Bool-cases (c == slash)) [
  | inl here ↦ ground arith
  | inr later ↦ elim (Option-cases (cut s)) [
    | inl nothing ↦ absurd (ground arith)
    | inr ((b, a), found) ↦ let rest = cut_joins s b a found in ground arith
  ]
]

cons_nil : (c : ℕ) (s : Bytes) → c ∷ s ≡ [] → ⊥
cons_nil c s e = cc

module _ (lib : Libc) where
  -- What parse_uint_full takes is not empty, and a number in range, with no error and nothing after it.
  pub parse_whole :
      (s : Bytes) (max p : ℕ)
      → parse_uint_full lib s max ≡ some p
      → (lib.strtoul s ≡ (p, [], false)) × (p ≤ max) × (s ≢ [])
  unfolding parse_uint_full
  parse_whole [] max p h = cc
  parse_whole (c ∷ s) max p h =
      let r = lib.strtoul (c ∷ s) in
      let errno : r.2 ≡ false = ground arith in
      let ended : bytes_eq r.1 [] ≡ true = ground arith in
      let left : r.1 ≡ [] = bytes_eq_sound r.1 [] ended in
      let val : r.0 ≡ p = ground arith in
      (λ i. (val i, left i, errno i), ground arith, λ e. cons_nil c s e)

  -- The masks that are written are read back with the prefix that was asked for.
  pub mask_back :
      (prefix m : ℕ) (text : Bytes)
      → prefix_to_mask prefix ≡ some m
      → lib.ntop m ≡ some text
      → ipv4_mask_to_int lib text ≡ some prefix
  unfolding ipv4_mask_to_int
  mask_back prefix m text made written =
      let (b, reads, number) = lib.pton-ntop m text written in
      let counted = bit_count-prefix_to_mask prefix m made in
      rw (reads, ipv4_mask_to_int) (rw number counted)

  pub zero_back : ipv4_mask_to_int lib zero_text ≡ some 0
  unfolding ipv4_mask_to_int bit_count count_bits ntohl
  zero_back = rw (lib.pton-zero, ipv4_mask_to_int) refl

  write_mask-IsRoute :
      (addr b out : Bytes) (prefix : ℕ)
      → lib.inet.pton af_inet addr ≡ some b
      → write_mask lib addr prefix ≡ some out
      → IsRoute lib out
  unfolding write_mask
  write_mask-IsRoute addr b out prefix known h = elim (Bool-cases (prefix == 0)) [
    | inl whole ↦
        let same : addr ++ slash ∷ zero_text ≡ out = ground arith in
        subst (IsRoute lib) same (ipv4 addr zero_text b 0 known zero_back)
    | inr some_bit ↦ elim (Option-cases (prefix_to_mask prefix)) [
      | inl large ↦ absurd (ground arith)
      | inr (m, made) ↦ elim (Option-cases (lib.ntop m)) [
        | inl failed ↦ absurd (ground arith)
        | inr (text, written) ↦
            let same : addr ++ slash ∷ text ≡ out = ground arith in
            subst (IsRoute lib) same
              (ipv4 addr text b prefix known (mask_back prefix m text made written))
      ]
    ]
  ]

  check_ipv4-IsRoute :
      (route addr prefix out : Bytes)
      → route ≡ addr ++ slash ∷ prefix
      → check_ipv4 lib route addr prefix ≡ some out
      → IsRoute lib out
  unfolding check_ipv4
  check_ipv4-IsRoute route addr prefix out form h =
      elim (Option-cases (lib.inet.pton af_inet addr)) [
        | inl unknown ↦ absurd (ground arith)
        | inr (b, known) ↦ elim (Bool-cases (has_char dot prefix)) [
          | inl dotted ↦ elim (Option-cases (ipv4_mask_to_int lib prefix)) [
            | inl holes ↦ absurd (ground arith)
            | inr (d, counted) ↦
                let same : addr ++ slash ∷ prefix ≡ out = ground arith in
                subst (IsRoute lib) same (ipv4 addr prefix b d known counted)
          ]
          | inr numeric ↦ elim (Option-cases (parse_uint_full lib prefix 32)) [
            | inl wrong ↦ absurd (ground arith)
            | inr (p, read) ↦ write_mask-IsRoute addr b out p known (ground arith)
          ]
        ]
      ]

  check_ipv6-IsRoute :
      (route addr prefix out : Bytes)
      → route ≡ addr ++ slash ∷ prefix
      → check_ipv6 lib route addr prefix ≡ some out
      → IsRoute lib out
  unfolding check_ipv6
  check_ipv6-IsRoute route addr prefix out form h =
      elim (Option-cases (lib.inet.pton af_inet6 addr)) [
        | inl unknown ↦ absurd (ground arith)
        | inr (b, known) ↦ elim (Option-cases (parse_uint_full lib prefix 128)) [
          | inl wrong ↦ absurd (ground arith)
          | inr (p, read) ↦
              let same : addr ++ slash ∷ prefix ≡ out = ground arith in
              subst (IsRoute lib) same (
                ipv6 addr prefix b p known (parse_whole prefix 128 p read).2
                  (parse_whole prefix 128 p read).0 (parse_whole prefix 128 p read).1)
        ]
      ]

  -- A route that ip_route_sanity_check accepts is, as it leaves it, the keyword "default", or an
  -- address that inet_pton takes followed by '/' and a prefix of its kind: for IPv6 a text that is not
  -- empty and that strtoul reads to its end as a number of at most 128, for IPv4 a mask that
  -- ipv4_mask_to_int takes.
  pub sanity_check-IsRoute :
      (route out : Bytes) → ip_route_sanity_check lib route ≡ some out → IsRoute lib out
  unfolding ip_route_sanity_check
  sanity_check-IsRoute route out h = elim (Bool-cases (bytes_eq route default_text)) [
    | inl word ↦
        let same : default_text ≡ out =
          sym (bytes_eq_sound route default_text word) ∙ ground arith in
        subst (IsRoute lib) same keyword
    | inr other ↦ elim (Option-cases (cut route)) [
      | inl missing ↦ absurd (ground arith)
      | inr ((addr, prefix), found) ↦
          let form = cut_joins route addr prefix found in
          elim (Bool-cases (has_char colon route)) [
            | inl six ↦ check_ipv6-IsRoute route addr prefix out form (ground arith)
            | inr four ↦ check_ipv4-IsRoute route addr prefix out form (ground arith)
          ]
    ]
  ]
