-- ===== src/Hostname.antt =====
-- Host names (src/valid-hostname.c).
pub mod Label
pub mod Grammar
mod Tests
use ocserv.Prelude.{
  isalnum, isdigit, ℕ, zero, suc, Bool, true, false, not, ◌&&◌, ◌||◌, Option, none, some, [], ◌∷◌,
  Bytes, leb, ltb, ◌==◌, if◌then◌else◌, length,
}
use ocserv.Address.{Family, af_inet}

abbrev pub max_dns_label_length : ℕ
max_dns_label_length = 63

abbrev pub max_dns_name_length : ℕ
max_dns_name_length = 253

-- The loop of valid_hostname over the characters.
unfoldable pub only_host_chars : Bytes → Bool
only_host_chars [] = true
only_host_chars (c ∷ p) =
    let rest = only_host_chars p in if not (isalnum c) && not (c == 45) then false else rest

-- The last character, `other` for none.
unfoldable pub last_char : ℕ → Bytes → ℕ
last_char other [] = other
last_char other (c ∷ p) = last_char c p

-- valid_hostname
unfoldable pub valid_hostname : Option Bytes → Bool
valid_hostname none = false
valid_hostname (some []) = false
valid_hostname (some (c ∷ p)) =
    if c == 45
    then false
    else if not (only_host_chars (c ∷ p))
    then false
    else if last_char c p == 45
    then false
    else not (ltb max_dns_label_length (length (c ∷ p)))

-- strchr: the text up to a character, and what follows it, `none` where it does not occur.
unfoldable pub split_at_char : ℕ → Bytes → Bytes × Option Bytes
split_at_char x [] = ([], none)
split_at_char x (c ∷ p) =
    let rest = split_at_char x p in if c == x then ([], some p) else (c ∷ rest.0, rest.1)

-- The loop of valid_fqdn, which takes a byte at least in each round.
unfoldable pub valid_labels : ℕ → Bytes → Bool
valid_labels k [] = true
valid_labels zero (c ∷ p) = false
valid_labels (suc k) (c ∷ p) =
    let (label, rest) = split_at_char 46 (c ∷ p) in
    if (length label == 0) || ltb max_dns_label_length (length label)
    then false
    else if not (valid_hostname (some label))
    then false
    else elim rest [ none ↦ true | some r ↦ valid_labels k r ]

-- valid_fqdn
unfoldable pub valid_fqdn : Option Bytes → Bool
valid_fqdn none = false
valid_fqdn (some []) = false
valid_fqdn (some (c ∷ p)) =
    if ltb max_dns_name_length (length (c ∷ p))
    then false
    else if last_char c p == 46
    then false
    else valid_labels (length (c ∷ p)) (c ∷ p)

-- The loop of valid_hostport over the port.
unfoldable pub only_digits : Bytes → Bool
only_digits [] = true
only_digits (c ∷ p) = let rest = only_digits p in if not (isdigit c) then false else rest

-- The part of valid_hostport past a colon that is there.
unfoldable pub valid_name_port : Bytes → Bytes → Bool
valid_name_port name [] = false
valid_name_port name (d ∷ port) =
    if not (only_digits (d ∷ port))
    then false
    else if (length name == 0) || ltb max_dns_name_length (length name)
    then false
    else valid_fqdn (some name)

-- valid_hostport
unfoldable pub valid_hostport : Option Bytes → Bool
valid_hostport none = false
valid_hostport (some []) = false
valid_hostport (some (c ∷ p)) =
    let (name, port) = split_at_char 58 (c ∷ p) in
    elim port [ none ↦ valid_fqdn (some (c ∷ p)) | some digits ↦ valid_name_port name digits ]

-- strip_domain, with inet_pton
unfoldable pub strip_domain : (Family → Bytes → Option Bytes) → Bytes → Bytes
strip_domain pton [] = []
strip_domain pton (c ∷ p) =
    if c == 46
    then c ∷ p
    else elim (pton af_inet (c ∷ p)) [ some a ↦ c ∷ p | none ↦ (split_at_char 46 (c ∷ p)).0 ]
