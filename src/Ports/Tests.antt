-- ===== src/Ports/Tests.antt =====
-- A list of ports at a concrete text (src/config-ports.c).
use ocserv.Prelude.{ℕ, ◌-◌, ◌≡◌, refl, true, Bool, Option, none, some, List, [], ◌∷◌, Bytes}
use ocserv.Ports.{
  FwPorts, room, tcp, udp, read_negation, rounds, round, skip_spaces, skip_open, read_proto,
  read_bracket, read_port, end_round, after_bracket, append_port, cfg_parse_ports,
}
use ocserv.Ports.Ends.{Ended, cfg_parse_ports-Ended}

-- "!(tcp(4), udp(5))"
abbrev text : Bytes
text = 33 ∷ 40 ∷ 116 ∷ 99 ∷ 112 ∷ 40 ∷ 52 ∷ 41 ∷ 44 ∷ 32 ∷ 117 ∷ 100 ∷ 112 ∷ 40 ∷ 53 ∷ 41 ∷ 41 ∷ []

-- The number in one digit.
abbrev digit : Bytes → ℕ
digit [] = 0
digit (c ∷ p) = c - 48

abbrev empty : FwPorts
empty = record { items = none; n = 0 }

cfg_parse_ports-Ended_example : Ended (cfg_parse_ports digit (λ k. room) empty (some text))
cfg_parse_ports-Ended_example = cfg_parse_ports-Ended digit (λ k. room) empty (some text) refl

parsed-text :
    cfg_parse_ports digit (λ k. room) empty (some text)
    ≡ some (
      true,
      record {
        items = some (
            record { port = 4; proto = tcp; negate = true }
            ∷ record { port = 5; proto = udp; negate = true }
            ∷ []);
        n = 2;
      },
    )
unfolding cfg_parse_ports read_negation skip_spaces skip_open rounds round read_proto
    ocserv.Prelude.bytes_eq read_bracket read_port append_port after_bracket end_round
parsed-text = refl
