-- ===== src/Url.antt =====
-- The text of URLs (escape_url and unescape_url, src/html.c). A char is signed, as on x86.
use ocserv.Prelude.{
  isalnum, ℕ, zero, suc, ◌+◌, ◌-◌, ◌*◌, ◌/◌, ◌%◌, ◌^◌, ◌<◌, ◌≡◌, Bool, true, false, ◌&&◌, ◌||◌,
  Option, none, some, List, [], ◌∷◌, ◌++◌, Bytes, ltb, leb, ◌==◌, take, length, if◌then◌else◌,
}
use mathlib.Core.Option
pub mod Roundtrip
mod Tests

abbrev pub percent_sign : ℕ
percent_sign = 37

abbrev pub plus_sign : ℕ
plus_sign = 43

abbrev pub space : ℕ
space = 32

-- A hexadecimal digit in upper case.
abbrev pub upper_digit : ℕ → ℕ
upper_digit d = if ltb d 10 then 48 + d else 55 + d

-- The digits of "%02X": at least two.
unfoldable pub two_at_least : Bytes → Bytes
two_at_least [] = []
two_at_least (a ∷ []) = a ∷ []
two_at_least (a ∷ b ∷ []) = a ∷ b ∷ []
two_at_least (a ∷ b ∷ c ∷ t) = if a == 48 then two_at_least (b ∷ c ∷ t) else a ∷ b ∷ c ∷ t

-- The text that "%02X" makes of an unsigned int.
unfoldable pub hex_text : ℕ → Bytes
hex_text n = two_at_least (
    upper_digit (n / 16 ^ 7 % 16)
    ∷ upper_digit (n / 16 ^ 6 % 16)
    ∷ upper_digit (n / 16 ^ 5 % 16)
    ∷ upper_digit (n / 16 ^ 4 % 16)
    ∷ upper_digit (n / 16 ^ 3 % 16)
    ∷ upper_digit (n / 16 ^ 2 % 16)
    ∷ upper_digit (n / 16 % 16)
    ∷ upper_digit (n % 16)
    ∷ [])

-- (unsigned int) of a char
abbrev pub as_unsigned : ℕ → ℕ
as_unsigned c = if ltb c 128 then c else (2 ^ 32 - 256) + c

-- snprintf(&msg[pos], 4, "%%%02X", ...): three bytes at most.
abbrev pub percent_text : ℕ → Bytes
percent_text c = take 3 (percent_sign ∷ hex_text (as_unsigned c))

-- isalnum(url[i]) || url[i] == '-' || url[i] == '_' || url[i] == '.' || url[i] == '~'
abbrev pub stays : ℕ → Bool
stays c = isalnum c || ((c == 45) || ((c == 95) || ((c == 46) || (c == 126))))

-- escape_url, for a string that is not out of memory
unfoldable pub escape_url : Bytes → Bytes
escape_url [] = []
escape_url (c ∷ url) =
    let rest = escape_url url in
    if stays c then c ∷ rest else if c == space then plus_sign ∷ rest else percent_text c ++ rest

-- The C string in b: two bytes, cut at a zero.
abbrev pub in_b : ℕ → ℕ → Bytes
in_b x y = if x == 0 then [] else if y == 0 then x ∷ [] else x ∷ y ∷ []

-- sscanf(b, "%02x", &u): the number, if there is one. Two hexadecimal digits are its value.
pub record Scan : Type 0 where
  pub scan : Bytes → Option ℕ
  pub scan-digits :
      (a b : ℕ) → a < 16 → b < 16 → scan (upper_digit a ∷ upper_digit b ∷ []) ≡ some (a * 16 + b)

-- What is done with a scanned byte and the rest of the message.
unfoldable pub scanned : Option ℕ → Option Bytes → Option Bytes
scanned none rest = none
scanned (some u) none = none
scanned (some u) (some msg) = some (u % 256 ∷ msg)

-- A byte that is no '%'.
abbrev pub plain_byte : ℕ → ℕ
plain_byte c = if c == plus_sign then space else c

-- The loop of unescape_url; `x` and `y` are the two bytes that follow the string in memory. The
-- number of bytes that it has left decides where the two after a '%' are read.
unfoldable pub unescape_in : Scan → ℕ → ℕ → Bytes → Option Bytes
unescape_in s x y [] = some []
unescape_in s x y (c ∷ []) =
    if c == percent_sign then scanned (s.scan (in_b x y)) (some []) else some (plain_byte c ∷ [])
unescape_in s x y (c ∷ a ∷ []) =
    let rest = unescape_in s x y (a ∷ []) in
    if c == percent_sign
    then scanned (s.scan (in_b a x)) (some [])
    else Option.map (◌∷◌ (plain_byte c)) rest
unescape_in s x y (c ∷ a ∷ b ∷ t) = elim (c == percent_sign) [
  | true ↦ scanned (s.scan (in_b a b)) (unescape_in s x y t)
  | false ↦ Option.map (◌∷◌ (plain_byte c)) (unescape_in s x y (a ∷ b ∷ t))
]

-- unescape_url, for a string that is not out of memory
abbrev pub unescape_url : Scan → ℕ → ℕ → Bytes → Option Bytes
unescape_url s x y url = unescape_in s x y url
