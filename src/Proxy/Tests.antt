-- ===== src/Proxy/Tests.antt =====
-- Headers of the proxy protocol at concrete bytes (src/worker-proxyproto.c).
use ocserv.Prelude.{
  ℕ, ◌≡◌, refl, [], ◌∷◌, ◌++◌, Option, none, some, arith, Bytes, length, bytes_eq, replicate,
}
use ocserv.Address.{Family, af_inet, af_inet6, af_other, Inet}
use ocserv.Proxy.{
  Endpoints, endpoints, proxy_header_v1, set_addresses, read_v2, parse_proxy_proto_header,
}
use ocserv.Proxy.Consistent.{IsConsistent, IsRest, header-IsConsistent}
use ocserv.Proxy.Roundtrip.{body, v2_header, header-v2_header}
use ocserv.Proxy.Text.{tag, words, header-words}

replicated :
    (n k : ℕ) {b : Bytes} → some (replicate n k) ≡ some b → length b ≡ length (replicate n k)
replicated n k h = cc

-- An address is the number of bytes of its text, repeated.
abbrev repeated : Family → Bytes → Option Bytes
repeated af_inet text = some (replicate 4 (length text))
repeated af_inet6 text = some (replicate 16 (length text))
repeated af_other text = none

abbrev inet : Inet
inet = record {
  pton = repeated;
  pton_inet-length = λ a h. replicated 4 (length a) h;
  pton_inet6-length = λ a h. replicated 16 (length a) h;
}

-- The first byte.
abbrev atoi : Bytes → ℕ
atoi [] = 0
atoi (c ∷ p) = c

abbrev direct : Endpoints
direct = endpoints af_inet (127 ∷ 0 ∷ 0 ∷ 1 ∷ []) (127 ∷ 0 ∷ 0 ∷ 1 ∷ []) (0 ∷ 1 ∷ []) (1 ∷ 187 ∷ [])

abbrev client : Bytes
client = 192 ∷ 0 ∷ 2 ∷ 7 ∷ []

abbrev server : Bytes
server = 192 ∷ 0 ∷ 2 ∷ 1 ∷ []

abbrev packet : Bytes
packet = v2_header 1 af_inet (body client server (4 ∷ 210 ∷ []) (1 ∷ 187 ∷ []) []) ++ 22 ∷ []

abbrev relayed : Endpoints
relayed = endpoints af_inet client server (4 ∷ 210 ∷ []) (1 ∷ 187 ∷ [])

header-v2_header_example :
    parse_proxy_proto_header inet atoi packet direct ≡ some (relayed, 22 ∷ [])
header-v2_header_example =
    header-v2_header inet atoi 1 af_inet client server (4 ∷ 210 ∷ []) (1 ∷ 187 ∷ []) [] (22 ∷ [])
      direct (omega arith) (omega arith) refl refl refl refl (omega arith)

direct-IsConsistent : IsConsistent direct
direct-IsConsistent = record {
  same = refl;
  known = omega arith;
  remote_len = refl;
  our_len = refl;
  remote = refl;
  our = refl;
  remote_port = refl;
  our_port = refl;
}

header-IsConsistent_example : IsConsistent relayed × IsRest 536 packet (22 ∷ [])
header-IsConsistent_example =
    header-IsConsistent inet atoi packet direct relayed (22 ∷ []) direct-IsConsistent
      header-v2_header_example

-- "1.2" and "5"
abbrev text : Bytes
text = 49 ∷ 46 ∷ 50 ∷ []

abbrev digit : Bytes
digit = 53 ∷ []

header-words_example :
    parse_proxy_proto_header inet atoi
      (proxy_header_v1 ++ (tag af_inet ++ words text text digit digit) ++ 13 ∷ 10 ∷ 22 ∷ [])
      direct
    ≡ some (endpoints af_inet (replicate 4 3) (replicate 4 3) (0 ∷ 53 ∷ []) (0 ∷ 53 ∷ []), 22 ∷ [])
header-words_example =
    header-words inet atoi af_inet text text digit digit (22 ∷ []) (replicate 4 3) (replicate 4 3)
      direct (omega arith) (ground arith) (ground arith) (ground arith) (ground arith) refl refl
      (omega arith) (omega arith)

-- A command LOCAL, as for a health check, sets the addresses too.
local_sets :
    parse_proxy_proto_header inet atoi
      (v2_header 0 af_inet (body client server (4 ∷ 210 ∷ []) (1 ∷ 187 ∷ []) []) ++ 22 ∷ [])
      direct
    ≡ some (relayed, 22 ∷ [])
unfolding parse_proxy_proto_header read_v2 set_addresses bytes_eq
local_sets = refl
