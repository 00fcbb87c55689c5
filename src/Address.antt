-- ===== src/Address.antt =====
-- Socket addresses (src/ip-util.h, src/ip-util.c) as the servers read them.
use ocserv.Prelude.{
  ℕ, Option, some, ◌≡◌, ◌||◌, [], ◌∷◌, length, Bool, true, false, Bytes, bytes_eq, ◌==◌,
  if◌then◌else◌,
}

-- sa_family_t: AF_INET, AF_INET6, or another number.
pub data Family : Type 0 where
  af_inet af_inet6 af_other : Family

unfoldable pub family_eq : Family → Family → Bool
family_eq af_inet af_inet = true
family_eq af_inet6 af_inet6 = true
family_eq af_other af_other = true
family_eq _ _ = false

-- struct sockaddr_storage: the four bytes at sin_addr and the sixteen at sin6_addr.
pub record Storage : Type 0 where
  pub family : Family
  pub sin_addr : Bytes
  pub sin6_addr : Bytes

-- sizeof(struct sockaddr_in) and sizeof(struct sockaddr_in6)
abbrev pub sockaddr_in_size : ℕ
sockaddr_in_size = 16

abbrev pub sockaddr_in6_size : ℕ
sockaddr_in6_size = 28

-- SA_IN_SIZE: the size of the address in a socket address of the given size.
abbrev pub sa_in_size : ℕ → ℕ
sa_in_size size = if size == sockaddr_in_size then 4 else 16

-- SA_IN_P_GENERIC: that address.
abbrev pub sa_in_p_generic : Storage → ℕ → Bytes
sa_in_p_generic a size = if size == sockaddr_in_size then a.sin_addr else a.sin6_addr

-- ip_cmp: the family of the first decides what is compared; true stands for a result of 0.
unfoldable pub ip_cmp : Storage → Storage → Bool
unfolding family_eq
ip_cmp a b =
    if family_eq a.family af_inet
    then bytes_eq a.sin_addr b.sin_addr
    else bytes_eq a.sin6_addr b.sin6_addr

-- inet_pton: the bytes of an address in text form, `none` where it does not return 1.
pub record Inet : Type 0 where
  pub pton : Family → Bytes → Option Bytes
  pub pton_inet-length : (a : Bytes) {b : Bytes} → pton af_inet a ≡ some b → length b ≡ 4
  pub pton_inet6-length : (a : Bytes) {b : Bytes} → pton af_inet6 a ≡ some b → length b ≡ 16

-- strchr(s, c) != NULL
unfoldable pub has_char : ℕ → Bytes → Bool
has_char c [] = false
has_char c (x ∷ xs) = (x == c) || has_char c xs
