-- ===== src/Proxy.antt =====
-- The header of the proxy protocol (src/worker-proxyproto.c). A result of -1 is `none`: the caller then
-- ends the worker, and with it what was written to its addresses. The connection is the list of the
-- bytes that come before it is closed or a wait for them times out. inet_pton and atoi are parameters.
use ocserv.Prelude.{
  ℕ, zero, suc, ◌+◌, ◌*◌, ◌/◌, ◌%◌, Bool, true, false, not, ◌&&◌, List, [], ◌∷◌, ◌++◌, Option, none,
  some, Bytes, bytes_eq, length, take, drop, ltb, leb, ◌==◌, if◌then◌else◌,
}
use ocserv.Address.{Family, af_inet, af_inet6, Inet, sockaddr_in_size, sockaddr_in6_size}
pub mod Consistent
pub mod Roundtrip
pub mod Text
mod Tests

-- A socket address: the bytes at sin_addr or sin6_addr, and the two of the port in network order.
pub record Endpoint : Type 0 where
  pub family : Family
  pub address : Bytes
  pub port : Bytes

-- The part of worker_st that the header sets.
pub record Endpoints : Type 0 where
  pub remote_addr : Endpoint
  pub remote_addr_len : ℕ
  pub our_addr : Endpoint
  pub our_addr_len : ℕ

abbrev pub size_of : Family → ℕ
size_of family = elim family [ af_inet ↦ sockaddr_in_size | _ ↦ sockaddr_in6_size ]

-- Both addresses, with the lengths that go with their family.
abbrev pub endpoints : Family → Bytes → Bytes → Bytes → Bytes → Endpoints
endpoints family src dst src_port dst_port = record {
  remote_addr = record { family = family; address = src; port = src_port };
  remote_addr_len = size_of family;
  our_addr = record { family = family; address = dst; port = dst_port };
  our_addr_len = size_of family;
}

-- htons(atoi(text))
abbrev pub port_bytes : ℕ → Bytes
port_bytes n = (n / 256 % 256) ∷ (n % 256) ∷ []

-- strchr(line, ' '): what stands before it, and after it.
unfoldable pub at_space : Bytes → Option (Bytes × Bytes)
at_space [] = none
at_space (c ∷ line) =
    let rest = at_space line in
    if c == 32
    then some ([], line)
    else elim rest [ none ↦ none | some (word, after) ↦ some (c ∷ word, after) ]

-- The ports, which end the line.
abbrev pub read_ports : (Bytes → ℕ) → Family → Bytes → Bytes → Bytes → Option Endpoints
read_ports atoi family src dst line = elim (at_space line) [
  | none ↦ none
  | some (_, rest) ↦
      some (endpoints family src dst (port_bytes (atoi line)) (port_bytes (atoi rest)))
]

abbrev pub read_dst : Inet → (Bytes → ℕ) → Family → Bytes → Bytes → Option Endpoints
read_dst inet atoi family src line = elim (at_space line) [
  | none ↦ none
  | some (word, rest) ↦ elim (inet.pton family word) [
    | none ↦ none
    | some dst ↦ read_ports atoi family src dst rest
  ]
]

-- A line after "TCP4 " or "TCP6 ".
unfoldable pub read_tcp : Inet → (Bytes → ℕ) → Family → Bytes → Option Endpoints
read_tcp inet atoi family line = elim (at_space line) [
  | none ↦ none
  | some (word, rest) ↦ elim (inet.pton family word) [
    | none ↦ none
    | some src ↦ read_dst inet atoi family src rest
  ]
]

-- "TCP4 " and "TCP6 "
abbrev pub tcp4 : Bytes
tcp4 = 84 ∷ 67 ∷ 80 ∷ 52 ∷ 32 ∷ []

abbrev pub tcp6 : Bytes
tcp6 = 84 ∷ 67 ∷ 80 ∷ 54 ∷ 32 ∷ []

unfoldable pub parse_proxy_proto_header_v1 : Inet → (Bytes → ℕ) → Bytes → Option Endpoints
parse_proxy_proto_header_v1 inet atoi line =
    if bytes_eq (take 5 line) tcp4
    then read_tcp inet atoi af_inet (drop 5 line)
    else if bytes_eq (take 5 line) tcp6
    then read_tcp inet atoi af_inet6 (drop 5 line)
    else none

-- "PROXY " and the signature of version 2
abbrev pub proxy_header_v1 : Bytes
proxy_header_v1 = 80 ∷ 82 ∷ 79 ∷ 88 ∷ 89 ∷ 32 ∷ []

abbrev pub proxy_header_v2 : Bytes
proxy_header_v2 = 13 ∷ 10 ∷ 13 ∷ 10 ∷ 0 ∷ 13 ∷ 10 ∷ 81 ∷ 85 ∷ 73 ∷ 84 ∷ 10 ∷ []

-- The bytes of the line in the loop of `n` rounds; `last` is the byte before.
unfoldable pub recv_line : ℕ → ℕ → Bytes → Option (Bytes × Bytes)
recv_line zero last input = none
recv_line (suc n) last [] = none
recv_line (suc n) last (c ∷ input) =
    let byte = if c == 13 then 0 else c in
    let rest = recv_line n byte input in
    if c == 10
    then (if last == 0 then some ([], input) else none)
    else elim rest [ none ↦ none | some (line, after) ↦ some (byte ∷ line, after) ]

-- The C string that the buffer holds.
unfoldable pub until_nul : Bytes → Bytes
until_nul [] = []
until_nul (c ∷ p) = let rest = until_nul p in if c == 0 then [] else c ∷ rest

abbrev pub byte_at : ℕ → Bytes → ℕ
byte_at n p = elim (drop n p) [ [] ↦ 0 | c ∷ _ ↦ c ]

-- The header of version 1, whose first 16 bytes are read.
unfoldable pub read_v1 : Inet → (Bytes → ℕ) → Bytes → Bytes → Option (Endpoints × Bytes)
read_v1 inet atoi hdr input = elim (recv_line 92 (byte_at 15 hdr) input) [
  | none ↦ none
  | some (line, after) ↦
      elim (parse_proxy_proto_header_v1 inet atoi (until_nul (drop 6 hdr ++ line))) [
        | none ↦ none
        | some w ↦ some (w, after)
      ]
]

-- The addresses in the data of version 2, those of `n` bytes for the family.
abbrev pub addresses_in : Family → ℕ → Bytes → Endpoints
addresses_in family n p =
    endpoints family (take n p) (take n (drop n p)) (take 2 (drop (2 * n) p))
      (take 2 (drop (2 * n + 2) p))

-- What version 2 makes of ver_cmd, family and data.
unfoldable pub set_addresses : ℕ → ℕ → Bytes → Endpoints → Option Endpoints
set_addresses ver_cmd family p w =
    if not (ver_cmd / 16 % 16 == 2)
    then some w
    else if not (ver_cmd % 16 == 1) && not (ver_cmd % 16 == 0)
    then none
    else if not (family / 16 % 16 == 1) && not (family / 16 % 16 == 2)
    then some w
    else if not (family % 16 == 1) && not (family % 16 == 0)
    then some w
    else if family / 16 % 16 == 1
    then (if ltb (length p) 12 then some w else some (addresses_in af_inet 4 p))
    else if ltb (length p) 36
    then some w
    else some (addresses_in af_inet6 16 p)

-- force_read_timeout
abbrev pub force_read_timeout : ℕ → Bytes → Option (Bytes × Bytes)
force_read_timeout n input =
    if leb n (length input) then some (take n input, drop n input) else none

-- sizeof(hdr.data)
abbrev pub max_data_size : ℕ
max_data_size = 520

unfoldable pub read_v2 : Bytes → Bytes → Endpoints → Option (Endpoints × Bytes)
read_v2 hdr input w =
    let size = byte_at 14 hdr * 256 + byte_at 15 hdr in
    if ltb max_data_size size then none else elim (force_read_timeout size input) [
      | none ↦ none
      | some (p, after) ↦ elim (set_addresses (byte_at 12 hdr) (byte_at 13 hdr) p w) [
        | none ↦ none
        | some w' ↦ some (w', after)
      ]
    ]

-- With what is left of the connection.
unfoldable pub parse_proxy_proto_header :
    Inet → (Bytes → ℕ) → Bytes → Endpoints → Option (Endpoints × Bytes)
parse_proxy_proto_header inet atoi input w = elim (force_read_timeout 16 input) [
  | none ↦ none
  | some (hdr, after) ↦
      if bytes_eq (take 6 hdr) proxy_header_v1
      then read_v1 inet atoi hdr after
      else if not (bytes_eq (take 12 hdr) proxy_header_v2)
      then none
      else read_v2 hdr after w
]
