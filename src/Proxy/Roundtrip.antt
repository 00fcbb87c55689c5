-- ===== src/Proxy/Roundtrip.antt =====
-- Headers of the proxy protocol, as they are sent, and what is read from them
-- (src/worker-proxyproto.c).
use ocserv.Prelude.{
  ℕ, ◌+◌, ◌*◌, ◌/◌, ◌%◌, ◌≤◌, ◌<◌, ◌≡◌, refl, ap, ◌∙◌, true, false, not, [], ◌∷◌, ◌++◌, Option,
  none, some, arith, Bytes, bytes_eq, length, length-append, take, drop, take-append, drop-append,
  ltb, leb, if◌then◌else◌,
}
use ocserv.Address.{Family, af_inet, af_inet6, af_other, Inet}
use ocserv.Proxy.{
  Endpoints, endpoints, proxy_header_v1, proxy_header_v2, byte_at, read_v1, addresses_in,
  set_addresses, force_read_timeout, max_data_size, read_v2, parse_proxy_proto_header,
}
use ocserv.Proxy.Consistent.{octets, drop-drop}

-- The byte of the family and the protocol: TCP over IPv4 or IPv6.
abbrev pub family_byte : Family → ℕ
family_byte family = elim family [ af_inet ↦ 17 | _ ↦ 33 ]

-- The data of a header of version 2.
abbrev pub body : Bytes → Bytes → Bytes → Bytes → Bytes → Bytes
body src dst src_port dst_port more = src ++ (dst ++ (src_port ++ (dst_port ++ more)))

-- A header of version 2, with its data.
abbrev pub v2_header : ℕ → Family → Bytes → Bytes
v2_header command family p =
    proxy_header_v2 ++ (32 + command) ∷ family_byte family ∷ (length p / 256) ∷ (length p % 256) ∷ p

pub force_read-append :
    (n : ℕ) (p q : Bytes) → length p ≡ n → force_read_timeout n (p ++ q) ≡ some (p, q)
force_read-append n p q h =
    let a : leb n (length (p ++ q)) ≡ true = ground (arith, length-append p q) in
    rw a (rw (take-append n p q h) (rw (drop-append n p q h) refl))

addresses_in-body :
    (family : Family) (n : ℕ) (src dst src_port dst_port more : Bytes)
    → length src ≡ n
    → length dst ≡ n
    → length src_port ≡ 2
    → length dst_port ≡ 2
    → addresses_in family n (body src dst src_port dst_port more)
      ≡ endpoints family src dst src_port dst_port
addresses_in-body family n src dst sp dp more a b c d =
    let p = body src dst sp dp more in
    let one : drop n p ≡ dst ++ (sp ++ (dp ++ more)) = drop-append n src _ a in
    let two : drop (2 * n) p ≡ sp ++ (dp ++ more) =
      drop-drop n n (2 * n) p (omega arith) ∙ ap (drop n) one ∙ drop-append n dst _ b in
    let three : drop (2 * n + 2) p ≡ dp ++ more =
      drop-drop (2 * n) 2 (2 * n + 2) p refl ∙ ap (drop 2) two ∙ drop-append 2 sp _ c in
    rw (take-append n src (dst ++ (sp ++ (dp ++ more))) a) (
      rw one (
        rw (take-append n dst (sp ++ (dp ++ more)) b) (
          rw two
            (rw three (rw (take-append 2 sp (dp ++ more) c) (rw (take-append 2 dp more d) refl))))))

set_addresses-body :
    (command : ℕ) (family : Family) (src dst src_port dst_port more : Bytes) (w : Endpoints)
    → command ≤ 1
    → 0 < octets family
    → length src ≡ octets family
    → length dst ≡ octets family
    → length src_port ≡ 2
    → length dst_port ≡ 2
    → set_addresses (32 + command) (family_byte family) (body src dst src_port dst_port more) w
      ≡ some (endpoints family src dst src_port dst_port)
unfolding set_addresses
set_addresses-body command af_inet src dst sp dp more w low k a b c d =
    let e = addresses_in-body af_inet 4 src dst sp dp more a b c d in
    ground (
      arith,
      e,
      length-append src (dst ++ (sp ++ (dp ++ more))),
      length-append dst (sp ++ (dp ++ more)),
      length-append sp (dp ++ more),
      length-append dp more,
    )
set_addresses-body command af_inet6 src dst sp dp more w low k a b c d =
    let e = addresses_in-body af_inet6 16 src dst sp dp more a b c d in
    ground (
      arith,
      e,
      length-append src (dst ++ (sp ++ (dp ++ more))),
      length-append dst (sp ++ (dp ++ more)),
      length-append sp (dp ++ more),
      length-append dp more,
    )
set_addresses-body command af_other src dst sp dp more w low k a b c d = absurd (omega (arith, k))

-- The first 16 bytes, and the rest of them.
pub parse-append :
    (inet : Inet) (atoi : Bytes → ℕ) (hdr after : Bytes) (w : Endpoints)
    → length hdr ≡ 16
    → parse_proxy_proto_header inet atoi (hdr ++ after) w ≡ (
        if bytes_eq (take 6 hdr) proxy_header_v1
        then read_v1 inet atoi hdr after
        else if not (bytes_eq (take 12 hdr) proxy_header_v2)
        then none
        else read_v2 hdr after w)
unfolding parse_proxy_proto_header
parse-append inet atoi hdr after w h =
    ap
      (λ (o : Option (Bytes × Bytes)). elim o as (λ x. Option (Endpoints × Bytes)) [
        | none ↦ none
        | some (hdr, after) ↦
            if bytes_eq (take 6 hdr) proxy_header_v1
            then read_v1 inet atoi hdr after
            else if not (bytes_eq (take 12 hdr) proxy_header_v2)
            then none
            else read_v2 hdr after w
      ])
      (force_read-append 16 hdr after h)

-- The data of version 2.
read_v2-append :
    (hdr p rest : Bytes) (w w' : Endpoints)
    → byte_at 14 hdr * 256 + byte_at 15 hdr ≡ length p
    → length p ≤ 520
    → set_addresses (byte_at 12 hdr) (byte_at 13 hdr) p w ≡ some w'
    → read_v2 hdr (p ++ rest) w ≡ some (w', rest)
unfolding read_v2
read_v2-append hdr p rest w w' size fits e =
    let small : ltb max_data_size (length p) ≡ false = ground arith in
    rw size (
      rw small (
        ap
          (λ (o : Option (Bytes × Bytes)). elim o as (λ x. Option (Endpoints × Bytes)) [
            | none ↦ none
            | some (p, after) ↦ elim (set_addresses (byte_at 12 hdr) (byte_at 13 hdr) p w) [
              | none ↦ none
              | some w' ↦ some (w', after)
            ]
          ])
          (force_read-append (length p) p rest refl)
        ∙ ap
            (λ (o : Option Endpoints). elim o as (λ x. Option (Endpoints × Bytes)) [
              | none ↦ none
              | some w' ↦ some (w', rest)
            ])
            e))

-- A header of version 2, for TCP over IPv4 or IPv6 and with up to 520 bytes of data, gives its
-- addresses and ports, with whatever further data, for the command PROXY and for LOCAL alike; and
-- nothing after it is read.
pub header-v2_header :
    (inet : Inet) (atoi : Bytes → ℕ) (command : ℕ) (family : Family)
    (src dst src_port dst_port more rest : Bytes) (w : Endpoints)
    → command ≤ 1
    → 0 < octets family
    → length src ≡ octets family
    → length dst ≡ octets family
    → length src_port ≡ 2
    → length dst_port ≡ 2
    → length (body src dst src_port dst_port more) ≤ 520
    → parse_proxy_proto_header inet atoi
        (v2_header command family (body src dst src_port dst_port more) ++ rest)
        w
      ≡ some (endpoints family src dst src_port dst_port, rest)
unfolding bytes_eq
header-v2_header inet atoi command family src dst sp dp more rest w low k a b c d fits =
    let p = body src dst sp dp more in
    let hdr =
      proxy_header_v2
      ++ (32 + command) ∷ family_byte family ∷ (length p / 256) ∷ (length p % 256) ∷ [] in
    parse-append inet atoi hdr (p ++ rest) w refl
    ∙ read_v2-append hdr p rest w (endpoints family src dst sp dp) (omega arith) fits
        (set_addresses-body command family src dst sp dp more w low k a b c d)
