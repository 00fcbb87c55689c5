-- ===== src/Ports.antt =====
-- Lists of ports as text (cfg_parse_ports, src/config-ports.c). A pointer into the string is what
-- is left of it; the string ends at its last byte. What atoi reads is a parameter: the number as the
-- unsigned field of the message keeps it.
use ocserv.Prelude.{
  isspace, ℕ, zero, suc, ◌+◌, ◌-◌, ◌≤◌, ◌≡◌, Bool, true, false, not, ◌&&◌, ◌||◌, Option, none, some,
  List, [], ◌∷◌, ◌++◌, Bytes, bytes_eq, ltb, leb, ◌==◌, take, drop, length, if◌then◌else◌, map,
}
pub mod Ends
mod Tests

-- fw_proto_t
pub data Proto : Type 0 where
  tcp udp sctp icmp6 icmp esp : Proto

-- FwPortSt
pub record FwPort : Type 0 where
  pub port : ℕ
  pub proto : Proto
  pub negate : Bool

-- *fw_ports, `none` for NULL, and *n_fw_ports
pub record FwPorts : Type 0 where
  pub items : Option (List FwPort)
  pub n : ℕ

abbrev pub bang : ℕ
bang = 33

abbrev pub open_bracket : ℕ
open_bracket = 40

abbrev pub close_bracket : ℕ
close_bracket = 41

abbrev pub comma : ℕ
comma = 44

-- The loops over isspace(*p).
unfoldable pub skip_spaces : Bytes → Bytes
skip_spaces [] = []
skip_spaces (c ∷ p) = let rest = skip_spaces p in if isspace c then rest else c ∷ p

-- The loop after a '!': whether a bracket was seen, and where it ends.
unfoldable pub skip_open : Bool → Bytes → Bool × Bytes
skip_open seen [] = (seen, [])
skip_open seen (c ∷ p) =
    let opened = skip_open true p in
    let blank = skip_open seen p in
    if c == open_bracket then opened else if isspace c then blank else (seen, c ∷ p)

-- A letter in lower case.
abbrev pub lower : ℕ → ℕ
lower c = if leb 65 c && leb c 90 then c + 32 else c

-- strncasecmp(p, word, strlen(word)) == 0, for a word in lower case
abbrev pub starts : Bytes → Bytes → Bool
starts word p = bytes_eq (map lower (take (length word) p)) word

abbrev pub tcp_word : Bytes
tcp_word = 116 ∷ 99 ∷ 112 ∷ []

abbrev pub udp_word : Bytes
udp_word = 117 ∷ 100 ∷ 112 ∷ []

abbrev pub sctp_word : Bytes
sctp_word = 115 ∷ 99 ∷ 116 ∷ 112 ∷ []

abbrev pub icmp6_word : Bytes
icmp6_word = 105 ∷ 99 ∷ 109 ∷ 112 ∷ 118 ∷ 54 ∷ []

abbrev pub icmp_word : Bytes
icmp_word = 105 ∷ 99 ∷ 109 ∷ 112 ∷ []

abbrev pub esp_word : Bytes
esp_word = 101 ∷ 115 ∷ 112 ∷ []

-- The protocol, and what is left after it.
unfoldable pub read_proto : Bytes → Option (Proto × Bytes)
read_proto p =
    if starts tcp_word p
    then some (tcp, drop 3 p)
    else if starts udp_word p
    then some (udp, drop 3 p)
    else if starts sctp_word p
    then some (sctp, drop 4 p)
    else if starts icmp6_word p
    then some (icmp6, drop 6 p)
    else if starts icmp_word p
    then some (icmp, drop 4 p)
    else if starts esp_word p
    then some (esp, drop 3 p)
    else none

-- What talloc_realloc and talloc answer.
pub data Room : Type 0 where
  no_array no_port room : Room

-- The array with one port more.
abbrev pub appended : FwPort → Option (List FwPort) → List FwPort
appended c none = c ∷ []
appended c (some l) = l ++ (c ∷ [])

-- append_port: both failures leave no array, and the old count.
unfoldable pub append_port : Room → FwPort → FwPorts → Bool × FwPorts
append_port no_array c s = (false, record s { items = none })
append_port no_port c s = (false, record s { items = none })
append_port room c s = (true, record { items = some (appended c s.items); n = s.n + 1 })

-- strchr(p, ')'): what follows the first bracket.
unfoldable pub after_bracket : Bytes → Option Bytes
after_bracket [] = none
after_bracket (c ∷ p) = let rest = after_bracket p in if c == close_bracket then some p else rest

-- The answer of cfg_parse_ports, `again` where the loop goes on.
pub data Outcome : Type 0 where
  failed done : FwPorts → Outcome
  again : FwPorts → Bytes → Outcome

-- The end of a round, past the closing bracket.
unfoldable pub end_round : Bool → FwPorts → Bytes → Outcome
end_round negate s [] = done s
end_round negate s (c ∷ p) =
    if negate && (c == close_bracket) then done s else if c == comma then again s p else failed s

-- A round past the opening bracket, with the number that atoi reads there.
unfoldable pub read_port : Room → Bool → Proto → ℕ → FwPorts → Bytes → Outcome
read_port r negate proto port s p =
    let (fine, u) = append_port r (record { port = port; proto = proto; negate = negate }) s in
    if not fine
    then failed u
    else elim (after_bracket p) [ none ↦ failed u | some q ↦ end_round negate u (skip_spaces q) ]

-- The opening bracket.
unfoldable pub read_bracket : (Bytes → ℕ) → Room → Bool → Proto → FwPorts → Bytes → Outcome
read_bracket atoi r negate proto s [] = failed s
read_bracket atoi r negate proto s (c ∷ p) =
    if c == open_bracket then read_port r negate proto (atoi p) s p else failed s

-- A round of the loop.
unfoldable pub round : (Bytes → ℕ) → Room → Bool → FwPorts → Bytes → Outcome
round atoi r negate s p = elim (read_proto (skip_spaces p)) [
  | none ↦ failed s
  | some (proto, q) ↦ read_bracket atoi r negate proto s (skip_spaces q)
]

-- The loop, with so many rounds to spare, and the answers to the allocations of each: `none`
-- where it would go on.
unfoldable pub rounds :
    (Bytes → ℕ) → (ℕ → Room) → Bool → ℕ → FwPorts → Bytes → Option (Bool × FwPorts)
rounds atoi r negate zero s p = none
rounds atoi r negate (suc k) s p = elim (round atoi (r k) negate s p) [
  | failed u ↦ some (false, u)
  | done u ↦ some (true, u)
  | again u q ↦ rounds atoi r negate k u q
]

-- The loop for what is left of the string, with a round more than it has bytes.
abbrev pub all_rounds : (Bytes → ℕ) → (ℕ → Room) → Bool → FwPorts → Bytes → Option (Bool × FwPorts)
all_rounds atoi r negate s p = rounds atoi r negate (suc (length p)) s p

-- The '!' at the start, past the white space.
unfoldable pub read_negation : (Bytes → ℕ) → (ℕ → Room) → FwPorts → Bytes → Option (Bool × FwPorts)
read_negation atoi r s [] = all_rounds atoi r false s []
read_negation atoi r s (c ∷ p) =
    if not (c == bang)
    then all_rounds atoi r false s (c ∷ p)
    else (let (opened, q) = skip_open false p in
        if opened then all_rounds atoi r true s q else some (false, s))

-- cfg_parse_ports; true stands for 0, false for -1.
unfoldable pub cfg_parse_ports :
    (Bytes → ℕ) → (ℕ → Room) → FwPorts → Option Bytes → Option (Bool × FwPorts)
cfg_parse_ports atoi r s none = some (true, s)
cfg_parse_ports atoi r s (some str) = read_negation atoi r s (skip_spaces str)
