-- ===== src/Route/Cidr.antt =====
-- Routes with a numeric prefix, through ip_route_sanity_check and back by ipv4_route_to_cidr
-- (src/ip-util.c).
use ocserv.Prelude.{
  ℕ, ◌≤◌, ◌≡◌, refl, sym, ap, ◌∙◌, true, false, not, Option, none, some, [], ◌∷◌, ◌++◌, Bytes,
  bytes_eq, ◌==◌, if◌then◌else◌, Bool-cases, Option-cases, inl, inr, arith,
}
use ocserv.Address.{af_inet, has_char}
use ocserv.Mask.{prefix_to_mask}
use ocserv.Route.{
  Libc, zero_text, default_text, slash, colon, dot, cut, ipv4_mask_to_int, parse_uint_full,
  write_mask, check_ipv4, ip_route_sanity_check, at_dot, decimal, copy, mask_to_cidr,
  ipv4_route_to_cidr,
}
use ocserv.Route.Accepted.{mask_back, zero_back, parse_whole}

cut-append : (a b : Bytes) → has_char slash a ≡ false → cut (a ++ slash ∷ b) ≡ some (a, b)
unfolding cut has_char
cut-append [] b h = refl
cut-append (c ∷ a) b h =
    let other : (c == slash) ≡ false = ground (arith, h) in
    let more : has_char slash a ≡ false = ground (arith, h) in
    rw other (rw (cut-append a b more) refl)

-- The first dot of a text that has one.
at_dot-append :
    (a t : Bytes)
    → has_char dot a ≡ true
    → has_char slash a ≡ false
    → (before : Bytes) × (middle : Bytes) × (at_dot (a ++ t) ≡ some (before, middle ++ t))
      × (a ≡ before ++ dot ∷ middle)
      × (has_char slash middle ≡ false)
unfolding at_dot has_char
at_dot-append [] t h k = cc
at_dot-append (c ∷ a) t h k = elim (Bool-cases (c == dot)) [
  | inl here ↦
      ([], a, rw here refl, let e : c ≡ dot = ground arith in (λ i. e i ∷ a), ground (arith, k))
  | inr later ↦
      let (before, middle, found, joined, clean) =
        at_dot-append a t (ground (arith, h)) (ground (arith, k)) in
      (c ∷ before, middle, rw later (rw found refl), ap (◌∷◌ c) joined, clean)
]

module _ (lib : Libc) where
  -- An address with a dot and no slash, and a mask with a dot.
  to_cidr-append :
      (addr mask : Bytes)
      → has_char slash addr ≡ false
      → has_char dot addr ≡ true
      → has_char dot mask ≡ true
      → ipv4_route_to_cidr lib (addr ++ slash ∷ mask) ≡ mask_to_cidr lib addr mask
  unfolding ipv4_route_to_cidr
  to_cidr-append addr mask no_slash dotted form =
      let route = addr ++ slash ∷ mask in
      let (before, middle, found, joined, clean) =
        at_dot-append addr (slash ∷ mask) dotted no_slash in
      ap
        (λ (o : Option (Bytes × Bytes)). elim o as (λ x. Option Bytes) [
          | none ↦ copy lib route
          | some (before, after) ↦ elim (cut after) [
            | none ↦ none
            | some (middle, mask) ↦
                if not (has_char dot mask)
                then copy lib route
                else mask_to_cidr lib (before ++ dot ∷ middle) mask
          ]
        ])
        found
      ∙ ap
          (λ (o : Option (Bytes × Bytes)). elim o as (λ x. Option Bytes) [
            | none ↦ none
            | some (middle, mask) ↦
                if not (has_char dot mask)
                then copy lib route
                else mask_to_cidr lib (before ++ dot ∷ middle) mask
          ])
          (cut-append middle mask clean)
      ∙ rw form (ap (λ a. mask_to_cidr lib a mask) (sym joined))

  mask_to_cidr-known :
      (addr mask : Bytes) (prefix : ℕ)
      → lib.memory_new ≡ true
      → ipv4_mask_to_int lib mask ≡ some prefix
      → prefix ≤ 32
      → mask_to_cidr lib addr mask
        ≡ (if prefix == 0 then none else some (addr ++ slash ∷ decimal prefix))
  mask_to_cidr-known addr mask prefix memory known small =
      rw (known, mask_to_cidr) (ground (arith, memory, small))

  -- The route of a numeric IPv4 prefix.
  sanity_check-numeric :
      (addr digits b : Bytes) (p : ℕ)
      → lib.memory ≡ true
      → has_char colon (addr ++ slash ∷ digits) ≡ false
      → has_char slash addr ≡ false
      → has_char dot digits ≡ false
      → bytes_eq (addr ++ slash ∷ digits) default_text ≡ false
      → lib.inet.pton af_inet addr ≡ some b
      → parse_uint_full lib digits 32 ≡ some p
      → ip_route_sanity_check lib (addr ++ slash ∷ digits) ≡ write_mask lib addr p
  unfolding ip_route_sanity_check check_ipv4
  sanity_check-numeric addr digits b p memory four no_slash plain word known read = rw word (
      rw (cut-append addr digits no_slash)
        (simp memory (rw four (rw (known, check_ipv4) (rw plain (rw read refl))))))

  write_mask-cidr :
      (addr out : Bytes) (p : ℕ)
      → lib.memory_new ≡ true
      → ((m : ℕ) (text : Bytes) → lib.ntop m ≡ some text → has_char dot text ≡ true)
      → has_char slash addr ≡ false
      → has_char dot addr ≡ true
      → p ≤ 32
      → write_mask lib addr p ≡ some out
      → ipv4_route_to_cidr lib out ≡ (if p == 0 then none else some (addr ++ slash ∷ decimal p))
  unfolding write_mask has_char
  write_mask-cidr addr out p memory dots no_slash dotted small h = elim (Bool-cases (p == 0)) [
    | inl whole ↦
        let same : addr ++ slash ∷ zero_text ≡ out = ground arith in
        let none_left : 0 ≡ p = ground arith in
        rw (← same) (
          to_cidr-append addr zero_text no_slash dotted refl
          ∙ mask_to_cidr-known addr zero_text p memory (rw (← none_left) (zero_back lib)) small)
    | inr some_bit ↦ elim (Option-cases (prefix_to_mask p)) [
      | inl large ↦ absurd (ground arith)
      | inr (m, made) ↦ elim (Option-cases (lib.ntop m)) [
        | inl failed ↦ absurd (ground arith)
        | inr (text, written) ↦
            let same : addr ++ slash ∷ text ≡ out = ground arith in
            rw (← same) (
              to_cidr-append addr text no_slash dotted (dots m text written)
              ∙ mask_to_cidr-known addr text p memory (mask_back lib p m text made written) small)
      ]
    ]
  ]

  -- What inet_ntop writes has a dot, and what inet_pton takes has one and no slash. Then a route with
  -- an IPv4 address and a numeric prefix that ip_route_sanity_check accepts comes back from
  -- ipv4_route_to_cidr as the address and the prefix, in two digits at most, if there is memory; but
  -- for the prefix 0, where there is no result.
  pub to_cidr-sanity_check :
      (addr digits b out : Bytes) (p : ℕ)
      → ((m : ℕ) (text : Bytes) → lib.ntop m ≡ some text → has_char dot text ≡ true)
      → has_char dot addr ≡ true
      → has_char slash addr ≡ false
      → lib.inet.pton af_inet addr ≡ some b
      → has_char colon (addr ++ slash ∷ digits) ≡ false
      → has_char dot digits ≡ false
      → bytes_eq (addr ++ slash ∷ digits) default_text ≡ false
      → parse_uint_full lib digits 32 ≡ some p
      → lib.memory ≡ true
      → lib.memory_new ≡ true
      → ip_route_sanity_check lib (addr ++ slash ∷ digits) ≡ some out
      → ipv4_route_to_cidr lib out ≡ (if p == 0 then none else some (addr ++ slash ∷ decimal p))
  to_cidr-sanity_check addr digits b out p dots dotted no_slash known four plain word read memory
        memory_new h =
      write_mask-cidr addr out p memory_new dots no_slash dotted
        (parse_whole lib digits 32 p read).1
        (sym (sanity_check-numeric addr digits b p memory four no_slash plain word known read) ∙ h)
