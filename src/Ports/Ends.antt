-- ===== src/Ports/Ends.antt =====
-- Reading a list of ports ends, and counts what it read (src/config-ports.c).
use mathlib.Core.Path.{subst}
use ocserv.Prelude.{
  ℕ, zero, suc, ◌+◌, ◌≤◌, ◌<◌, ◌≡◌, ap, inl, inr, Bool, true, false, not, ◌&&◌, Option, none, some,
  List, [], ◌∷◌, arith, Bytes, ◌==◌, drop, length, length-append, length-drop, if_split, if_both,
  Bool-cases, Option-split,
}
use ocserv.Ports.{
  appended, FwPort, FwPorts, Proto, Room, no_array, no_port, room, Outcome, failed, done, again,
  skip_spaces, read_proto, append_port, after_bracket, end_round, read_port, read_bracket, round,
  rounds, all_rounds, read_negation, cfg_parse_ports, skip_open, starts, tcp_word, udp_word,
  sctp_word, icmp6_word, icmp_word, esp_word, comma, close_bracket, open_bracket, bang,
}

-- The number of ports in the array.
abbrev pub held : Option (List FwPort) → ℕ
held none = 0
held (some l) = length l

-- The count is the number of ports.
abbrev pub IsCounted : FwPorts → Type 0
IsCounted s = s.n ≡ held s.items

-- The loop has an answer, and the array is counted where it is 0.
abbrev pub Ended : Option (Bool × FwPorts) → Type 0
Ended none = ⊥
Ended (some (fine, u)) = fine ≡ true → IsCounted u

-- A round that goes on has less of the string left; the array is counted, unless the round failed.
abbrev Advances : ℕ → Outcome → Type 0
Advances len (failed u) = Unit
Advances len (done u) = IsCounted u
Advances len (again u q) = IsCounted u × (length q < len)

length-skip : (p : Bytes) → length (skip_spaces p) ≤ length p
unfolding skip_spaces
length-skip [] = omega arith
length-skip (c ∷ p) = let rest = length-skip p in ground (arith, rest)

length-after : (p q : Bytes) → after_bracket p ≡ some q → length q < length p
unfolding after_bracket
length-after [] q h = cc
length-after (c ∷ p) q h = elim (Bool-cases (c == close_bracket)) [
  | inl hit ↦ let same : p ≡ q = ground arith in omega (arith, ap length same)
  | inr miss ↦ let rest = length-after p q (ground arith) in omega (arith, rest)
]

-- What is left after a protocol.
abbrev Shorter : ℕ → Option (Proto × Bytes) → Type 0
Shorter len none = Unit
Shorter len (some (proto, q)) = length q ≤ len

read-Shorter : (p : Bytes) → Shorter (length p) (read_proto p)
unfolding read_proto
read-Shorter p =
    let P = Shorter (length p) in
    let cut : (k : ℕ) → length (drop k p) ≤ length p =
      λ k. (let e = length-drop k p in omega (arith, e)) in
    if_both P (starts tcp_word p) _ _ (cut 3) (
      if_both P (starts udp_word p) _ _ (cut 3) (
        if_both P (starts sctp_word p) _ _ (cut 4) (
          if_both P (starts icmp6_word p) _ _ (cut 6) (
            if_both P (starts icmp_word p) _ _ (cut 4)
              (if_both P (starts esp_word p) _ _ (cut 3) tt)))))

end-Advances :
    (negate : Bool) (u : FwPorts) (p : Bytes) (len : ℕ)
    → IsCounted u
    → length p < len
    → Advances len (end_round negate u p)
unfolding end_round
end-Advances negate u [] len counted less = counted
end-Advances negate u (c ∷ p) len counted less =
    if_both (Advances len) (negate && (c == close_bracket)) _ _ counted
      (if_both (Advances len) (c == comma) _ _ (counted, omega (arith, less)) tt)

-- An array that was appended to is counted.
append-IsCounted :
    (r : Room) (c : FwPort) (s : FwPorts)
    → IsCounted s
    → (append_port r c s).0 ≡ true
    → IsCounted (append_port r c s).1
unfolding append_port
append-IsCounted no_array c s i h = cc
append-IsCounted no_port c s i h = cc
append-IsCounted room c s i h = go s.items i
  where
    go : (o : Option (List FwPort)) → s.n ≡ held o → s.n + 1 ≡ held (some (appended c o))
    go none e = omega (arith, e)
    go (some l) e = omega (arith, e, length-append l (c ∷ []))

module _ (atoi : Bytes → ℕ) (negate : Bool) where
  port-Advances :
      (r : Room) (proto : Proto) (port : ℕ) (s : FwPorts) (p : Bytes) (len : ℕ)
      → IsCounted s
      → length p ≤ len
      → Advances len (read_port r negate proto port s p)
  unfolding read_port
  port-Advances r proto port s p len i le =
      let c : FwPort = record { port = port; proto = proto; negate = negate } in
      let a = append_port r c s in
      if_split (Advances len) (not a.0) _ _ (λ refused. tt)
        (λ fine.
          let counted : IsCounted a.1 = append-IsCounted r c s i (ground arith) in
          Option-split
            (λ o.
              Advances len
                (elim o [ none ↦ failed a.1 | some q ↦ end_round negate a.1 (skip_spaces q) ]))
            (after_bracket p) (λ missing. tt)
            (λ q found.
              end-Advances negate a.1 (skip_spaces q) len counted
                (omega (arith, le, length-after p q found, length-skip q))))

  bracket-Advances :
      (r : Room) (proto : Proto) (s : FwPorts) (p : Bytes) (len : ℕ)
      → IsCounted s
      → length p ≤ len
      → Advances len (read_bracket atoi r negate proto s p)
  unfolding read_bracket
  bracket-Advances r proto s [] len i le = tt
  bracket-Advances r proto s (c ∷ p) len i le =
      if_both (Advances len) (c == open_bracket) _ _
        (port-Advances r proto (atoi p) s p len i (omega (arith, le))) tt

  round-Advances :
      (r : Room) (s : FwPorts) (p : Bytes)
      → IsCounted s
      → Advances (length p) (round atoi r negate s p)
  unfolding round
  round-Advances r s p i =
      let start = skip_spaces p in
      Option-split
        (λ o. Advances (length p) (elim o [
          | none ↦ failed s
          | some x ↦ read_bracket atoi r negate x.0 s (skip_spaces x.1)
        ]))
        (read_proto start) (λ unknown. tt)
        (λ x found.
          let shorter : Shorter (length start) (some x) =
            subst (Shorter (length start)) found (read-Shorter start) in
          bracket-Advances r x.0 s (skip_spaces x.1) (length p) i
            (omega (arith, shorter, length-skip p, length-skip x.1)))

  -- What follows a round, if what follows a round that goes on ends.
  settle :
      (r : ℕ → Room) (k len : ℕ) (o : Outcome)
      → ((u : FwPorts) (q : Bytes)
          → IsCounted u
          → length q < k
          → Ended (rounds atoi r negate k u q))
      → Advances len o
      → len ≤ k
      → Ended (elim o [
        | failed u ↦ some (false, u)
        | done u ↦ some (true, u)
        | again u q ↦ rounds atoi r negate k u q
      ])
  settle r k len (failed u) rest a le = λ e. cc
  settle r k len (done u) rest a le = λ e. a
  settle r k len (again u q) rest a le = rest u q a.0 (omega (arith, a.1, le))

  rounds-Ended :
      (r : ℕ → Room) (k : ℕ) (s : FwPorts) (p : Bytes)
      → IsCounted s
      → length p < k
      → Ended (rounds atoi r negate k s p)
  unfolding rounds
  rounds-Ended r zero s p i less = absurd (omega (arith, less))
  rounds-Ended r (suc k) s p i less =
      settle r k (length p) (round atoi (r k) negate s p) (λ u q. rounds-Ended r k u q)
        (round-Advances (r k) s p i) (omega (arith, less))

module _ (atoi : Bytes → ℕ) (r : ℕ → Room) where
  all-Ended :
      (negate : Bool) (s : FwPorts) (p : Bytes) → IsCounted s → Ended (all_rounds atoi r negate s p)
  all-Ended negate s p i = rounds-Ended atoi negate r (suc (length p)) s p i (omega arith)

  negation-Ended : (s : FwPorts) (p : Bytes) → IsCounted s → Ended (read_negation atoi r s p)
  unfolding read_negation
  negation-Ended s [] i = all-Ended false s [] i
  negation-Ended s (c ∷ p) i = if_both Ended (not (c == bang)) _ _ (all-Ended false s (c ∷ p) i) (
      if_both Ended (skip_open false p).0 _ (some (false, s))
        (all-Ended true s (skip_open false p).1 i) (λ e. cc))

  -- For every text, every reading of numbers and every failure of an allocation, cfg_parse_ports
  -- comes to an end; where it returns 0, the count is the number of ports in the array, if it was
  -- before.
  pub cfg_parse_ports-Ended :
      (s : FwPorts) (str : Option Bytes) → IsCounted s → Ended (cfg_parse_ports atoi r s str)
  unfolding cfg_parse_ports
  cfg_parse_ports-Ended s none i = λ e. i
  cfg_parse_ports-Ended s (some str) i = negation-Ended s (skip_spaces str) i
