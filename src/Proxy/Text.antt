-- ===== src/Proxy/Text.antt =====
-- The line of version 1 of the proxy protocol (src/worker-proxyproto.c).
use mathlib.Core.List.{append_assoc}
use ocserv.Prelude.{
  ℕ, zero, suc, ◌+◌, ◌≤◌, ◌<◌, ◌≡◌, ◌≢◌, refl, ap, ◌∙◌, sym, false, [], ◌∷◌, ◌++◌, Option, none,
  some, arith, Bytes, bytes_eq, length, length-append, length-take, length-drop, take, drop, ◌==◌,
  if◌then◌else◌, All,
}
use ocserv.Address.{Family, af_inet, af_inet6, af_other, Inet}
use ocserv.Proxy.{
  Endpoints, endpoints, port_bytes, at_space, read_tcp, read_dst, read_ports, tcp4, tcp6,
  parse_proxy_proto_header_v1, proxy_header_v1, recv_line, until_nul, byte_at, read_v1,
  parse_proxy_proto_header,
}
use ocserv.Proxy.Consistent.{octets}
use ocserv.Proxy.Roundtrip.{parse-append}

-- No end of a string, and none of a line; in a word, no space.
abbrev pub IsPlain : ℕ → Type 0
IsPlain c = (c ≢ 0) × (c ≢ 10) × (c ≢ 13)

abbrev pub IsLetter : ℕ → Type 0
IsLetter c = (c ≢ 0) × (c ≢ 10) × (c ≢ 13) × (c ≢ 32)

recv_line-append :
    (n last : ℕ) (line rest : Bytes)
    → All IsPlain line
    → length line + 2 ≤ n
    → recv_line n last (line ++ 13 ∷ 10 ∷ rest) ≡ some (line ++ 0 ∷ [], rest)
unfolding recv_line
recv_line-append zero last line rest a room = absurd (omega (arith, room))
recv_line-append (suc zero) last line rest a room = absurd (omega (arith, room))
recv_line-append (suc (suc n)) last [] rest a room = refl
recv_line-append (suc (suc n)) last (c ∷ line) rest ((nul, lf, cr), a) room =
    let ten : (c == 10) ≡ false = ground (arith, lf) in
    let thirteen : (c == 13) ≡ false = ground (arith, cr) in
    let ih =
      recv_line-append (suc n) (if c == 13 then 0 else c) line rest a (omega (arith, room)) in
    rw ten (rw ih (rw thirteen refl))

until_nul-append : (line : Bytes) → All IsPlain line → until_nul (line ++ 0 ∷ []) ≡ line
unfolding until_nul
until_nul-append [] a = refl
until_nul-append (c ∷ line) ((nul, lf, cr), a) =
    let zeroth : (c == 0) ≡ false = ground (arith, nul) in
    rw zeroth (ap (◌∷◌ c) (until_nul-append line a))

at_space-append :
    (word rest : Bytes) → All IsLetter word → at_space (word ++ 32 ∷ rest) ≡ some (word, rest)
unfolding at_space
at_space-append [] rest a = refl
at_space-append (c ∷ word) rest ((nul, lf, cr, sp), a) =
    let no_space : (c == 32) ≡ false = ground (arith, sp) in
    rw no_space (rw (at_space-append word rest a) refl)

All-IsPlain : (word : Bytes) → All IsLetter word → All IsPlain word
All-IsPlain [] a = tt
All-IsPlain (c ∷ word) ((nul, lf, cr, sp), a) = ((nul, lf, cr), All-IsPlain word a)

All-append : (p q : Bytes) → All IsPlain p → All IsPlain q → All IsPlain (p ++ q)
All-append [] q a b = b
All-append (c ∷ p) q (x, a) b = (x, All-append p q a b)

All-drop : (n : ℕ) (p : Bytes) → All IsPlain p → All IsPlain (drop n p)
All-drop zero p a = a
All-drop (suc n) [] a = tt
All-drop (suc n) (c ∷ p) (x, a) = All-drop n p a

take-drop : (n : ℕ) (p : Bytes) → take n p ++ drop n p ≡ p
take-drop zero p = refl
take-drop (suc n) [] = refl
take-drop (suc n) (c ∷ p) = ap (◌∷◌ c) (take-drop n p)

-- The whole line is read, and given to the parser.
line_read :
    (inet : Inet) (atoi : Bytes → ℕ) (line rest : Bytes) (w w' : Endpoints)
    → All IsPlain line
    → 10 ≤ length line
    → length line ≤ 100
    → parse_proxy_proto_header_v1 inet atoi line ≡ some w'
    → parse_proxy_proto_header inet atoi (proxy_header_v1 ++ line ++ 13 ∷ 10 ∷ rest) w
      ≡ some (w', rest)
unfolding bytes_eq read_v1
line_read inet atoi line rest w w' plain long short e =
    let x = drop 10 line in
    let hdr = proxy_header_v1 ++ take 10 line in
    let tail = 13 ∷ 10 ∷ rest in
    let split : proxy_header_v1 ++ line ++ tail ≡ hdr ++ (x ++ tail) =
      ap (λ l. proxy_header_v1 ++ (l ++ tail)) (sym (take-drop 10 line))
      ∙ ap (λ l. proxy_header_v1 ++ l) (append_assoc (take 10 line) x tail) in
    let received =
      recv_line-append 92 (byte_at 15 hdr) x rest (All-drop 10 line plain)
        (omega (arith, length-drop 10 line)) in
    let whole : until_nul (take 10 line ++ (x ++ 0 ∷ [])) ≡ line =
      ap until_nul
        (sym (append_assoc (take 10 line) x (0 ∷ [])) ∙ ap (λ l. l ++ 0 ∷ []) (take-drop 10 line))
      ∙ until_nul-append line plain in
    let parsed = ap (parse_proxy_proto_header_v1 inet atoi) whole ∙ e in
    ap (λ p. parse_proxy_proto_header inet atoi p w) split
    ∙ parse-append inet atoi hdr (x ++ tail) w (omega (arith, length-take 10 line))
    ∙ ap
        (λ (o : Option (Bytes × Bytes)). elim o as (λ x. Option (Endpoints × Bytes)) [
          | none ↦ none
          | some (line, after) ↦
              elim (parse_proxy_proto_header_v1 inet atoi (until_nul (drop 6 hdr ++ line))) [
                | none ↦ none
                | some w ↦ some (w, after)
              ]
        ])
        received
    ∙ ap
        (λ (o : Option Endpoints). elim o as (λ x. Option (Endpoints × Bytes)) [
          | none ↦ none
          | some w ↦ some (w, rest)
        ])
        parsed

-- "TCP4 " and "TCP6 ", and the line after it
abbrev pub tag : Family → Bytes
tag family = elim family [ af_inet ↦ tcp4 | _ ↦ tcp6 ]

abbrev pub words : Bytes → Bytes → Bytes → Bytes → Bytes
words src dst src_port dst_port = src ++ 32 ∷ (dst ++ 32 ∷ (src_port ++ 32 ∷ dst_port))

words_read :
    (inet : Inet) (atoi : Bytes → ℕ) (family : Family) (src dst src_port dst_port a b : Bytes)
    → All IsLetter src
    → All IsLetter dst
    → All IsLetter src_port
    → inet.pton family src ≡ some a
    → inet.pton family dst ≡ some b
    → read_tcp inet atoi family (words src dst src_port dst_port)
      ≡ some (
          endpoints family a b
            (port_bytes (atoi (src_port ++ 32 ∷ dst_port)))
            (port_bytes (atoi dst_port)))
unfolding read_tcp
words_read inet atoi family src dst sp dp a b ls ld lp ha hb =
    let one = at_space-append src (dst ++ 32 ∷ (sp ++ 32 ∷ dp)) ls in
    let two = at_space-append dst (sp ++ 32 ∷ dp) ld in
    let three = at_space-append sp dp lp in
    rw (one, read_tcp) (rw ha (rw (two, read_dst) (rw hb (rw (three, read_ports) refl))))

tagged_read :
    (inet : Inet) (atoi : Bytes → ℕ) (family : Family) (line : Bytes)
    → 0 < octets family
    → parse_proxy_proto_header_v1 inet atoi (tag family ++ line) ≡ read_tcp inet atoi family line
unfolding parse_proxy_proto_header_v1 bytes_eq
tagged_read inet atoi af_inet line k = refl
tagged_read inet atoi af_inet6 line k = refl
tagged_read inet atoi af_other line k = absurd (omega (arith, k))

length-tag : (family : Family) → length (tag family) ≡ 5
length-tag af_inet = refl
length-tag af_inet6 = refl
length-tag af_other = refl

tag-IsPlain : (family : Family) → All IsPlain (tag family)
tag-IsPlain af_inet = ground arith
tag-IsPlain af_inet6 = ground arith
tag-IsPlain af_other = ground arith

-- A line of version 1 of 18 to 108 bytes, "PROXY TCP4" or "PROXY TCP6", the addresses and the ports
-- without NUL, spaces and ends of lines, with single spaces between them, and the end of the line,
-- gives the addresses that inet_pton makes of the two texts and the ports that atoi reads; and nothing
-- after it is read.
pub header-words :
    (inet : Inet) (atoi : Bytes → ℕ) (family : Family) (src dst src_port dst_port rest a b : Bytes)
    (w : Endpoints)
    → 0 < octets family
    → All IsLetter src
    → All IsLetter dst
    → All IsLetter src_port
    → All IsLetter dst_port
    → inet.pton family src ≡ some a
    → inet.pton family dst ≡ some b
    → 5 ≤ length (words src dst src_port dst_port)
    → length (words src dst src_port dst_port) ≤ 95
    → parse_proxy_proto_header inet atoi
        (proxy_header_v1 ++ (tag family ++ words src dst src_port dst_port) ++ 13 ∷ 10 ∷ rest)
        w
      ≡ some (
        endpoints family a b
            (port_bytes (atoi (src_port ++ 32 ∷ dst_port)))
            (port_bytes (atoi dst_port)),
        rest,
      )
header-words inet atoi family src dst sp dp rest a b w k ls ld lp lq ha hb long short =
    let line = words src dst sp dp in
    let space : IsPlain 32 = (
      λ e. absurd (omega (arith, e)),
      λ e. absurd (omega (arith, e)),
      λ e. absurd (omega (arith, e)),
    ) in
    let plain = All-append src _ (All-IsPlain src ls) (
      space,
      All-append dst _ (All-IsPlain dst ld)
          (space, All-append sp _ (All-IsPlain sp lp) (space, All-IsPlain dp lq)),
    ) in
    line_read inet atoi (tag family ++ line) rest w _
      (All-append (tag family) line (tag-IsPlain family) plain)
      (omega (arith, length-append (tag family) line, length-tag family))
      (omega (arith, length-append (tag family) line, length-tag family))
      (tagged_read inet atoi family line k
        ∙ words_read inet atoi family src dst sp dp a b ls ld lp ha hb)
