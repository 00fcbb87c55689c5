-- ===== src/Mtu.antt =====
-- The MTU of a worker's DTLS channel and its discovery (src/worker-vpn.c, src/worker.h). GnuTLS is a
-- parameter, and an unsigned int has 32 bits. IPV6_PATHMTU is defined.
use ocserv.Prelude.{
  ℕ, ◌+◌, ◌-◌, ◌*◌, ◌/◌, ◌%◌, ◌^◌, Bool, true, false, not, ◌||◌, ◌&&◌, List, [], ◌∷◌, Option, none,
  some, ltb, leb, ◌==◌, if◌then◌else◌,
}
pub mod Events
pub mod Search
pub mod Settles
pub mod Rounds
pub mod Outcome
pub mod Bounds
pub mod Ceiling
pub mod Agreed
mod Tests

-- ws->proto
pub data LinkFamily : Type 0 where
  inet : LinkFamily
  inet6 : LinkFamily
  other : LinkFamily

abbrev pub is_inet : LinkFamily → Bool
is_inet inet = true
is_inet inet6 = false
is_inet other = false

abbrev pub is_inet6 : LinkFamily → Bool
is_inet6 inet = false
is_inet6 inet6 = true
is_inet6 other = false

-- gnutls_dtls_set_mtu, gnutls_dtls_set_data_mtu and gnutls_dtls_get_mtu
pub record Gnutls (S : Type 0) : Type 0 where
  pub dtls_set_mtu : ℕ → S → S
  pub dtls_set_data_mtu : ℕ → S → S
  pub dtls_get_mtu : S → ℕ

-- The part of worker_st that the MTU concerns, with the session of the dtls_st that a function is
-- given; `ipv6` is vinfo.ipv6 != NULL, `mtu_disc` what set_mtu_disc asked of the socket, `mtu` vinfo.mtu, and `told`
-- are the messages CMD_TUN_MTU, the last one first.
pub record Worker (S : Type 0) : Type 0 where
  pub proto : LinkFamily
  pub ipv6 : Bool
  pub link_mtu : ℕ
  pub adv_link_mtu : ℕ
  pub last_good_mtu : ℕ
  pub last_bad_mtu : ℕ
  pub try_mtu : Bool
  pub cstp_crypto_overhead : ℕ
  pub cstp_proto_overhead : ℕ
  pub dtls_crypto_overhead : ℕ
  pub dtls_proto_overhead : ℕ
  pub dtls_session : Option S
  pub mtu_disc : Bool
  pub mtu : ℕ
  pub told : List ℕ

-- sizeof(ws->buffer)
abbrev pub buffer_size : ℕ
buffer_size = 16 * 1024

-- MIN_MTU
abbrev pub min_mtu : {S : Type 0} → Worker S → ℕ
min_mtu w = if w.ipv6 then 1280 else 800

abbrev pub subtract : ℕ → ℕ → ℕ
subtract a b = (a + (2 ^ 32 - b % 2 ^ 32)) % 2 ^ 32

-- DATA_MTU
abbrev pub data_mtu : {S : Type 0} → Worker S → ℕ → ℕ
data_mtu w mtu = subtract (subtract mtu w.dtls_crypto_overhead) w.dtls_proto_overhead

abbrev pub data_mtu_send : {S : Type 0} → ℕ → Worker S → Worker S
data_mtu_send mtu w = record w { told = mtu ∷ w.told }

-- The call of gnutls_dtls_set_mtu, if there is a session.
abbrev pub session_mtu : {S : Type 0} → Gnutls S → ℕ → Option S → Option S
session_mtu g mtu none = none
session_mtu g mtu (some s) = some (g.dtls_set_mtu mtu s)

unfoldable pub link_mtu_set : {S : Type 0} → Gnutls S → ℕ → Worker S → Worker S
link_mtu_set g mtu w =
    if ((w.link_mtu == mtu) || ltb buffer_size mtu) || ltb mtu (min_mtu w)
    then w
    else data_mtu_send (data_mtu w mtu) (record w {
      link_mtu = mtu;
      dtls_session = session_mtu g (subtract mtu w.dtls_proto_overhead) w.dtls_session;
    })

-- The rest of data_mtu_set, from the MTU that the session then has.
abbrev pub follow_session : {S : Type 0} → Gnutls S → ℕ → Worker S → Worker S
follow_session g mtu w =
    if (mtu == 0) || (mtu == w.link_mtu)
    then w
    else link_mtu_set g ((mtu + w.dtls_proto_overhead) % 2 ^ 32) w

unfoldable pub data_mtu_set : {S : Type 0} → Gnutls S → ℕ → Worker S → Worker S
data_mtu_set g mtu w = elim w.dtls_session [
  | none ↦ w
  | some s ↦
      let s' = g.dtls_set_data_mtu ((mtu + 1) % 2 ^ 32) s in
      follow_session g (g.dtls_get_mtu s') (record w { dtls_session = some s' })
]

unfoldable pub disable_mtu_disc : {S : Type 0} → Gnutls S → Worker S → Worker S
disable_mtu_disc g w = record (link_mtu_set g w.adv_link_mtu (record w { mtu_disc = false })) {
  try_mtu = false;
}

-- The end of the search at MIN_MTU.
abbrev pub give_up : {S : Type 0} → Gnutls S → Worker S → Worker S
give_up g w = link_mtu_set g (min_mtu w) (disable_mtu_disc g w)

-- MAX((2 * link_mtu) / 3, min)
abbrev pub two_thirds : {S : Type 0} → Worker S → ℕ
two_thirds w = let t = 2 * w.link_mtu % 2 ^ 32 / 3 in if ltb (min_mtu w) t then t else min_mtu w

-- The branch of mtu_not_ok for AF_INET.
unfoldable pub too_large : {S : Type 0} → Gnutls S → Worker S → Worker S
too_large g w =
    if w.last_good_mtu == min_mtu w
    then give_up g (record w { last_bad_mtu = w.link_mtu })
    else let good = if leb w.link_mtu w.last_good_mtu then two_thirds w else w.last_good_mtu in
      link_mtu_set g good (record w { last_bad_mtu = w.link_mtu; last_good_mtu = good })

-- The branch for AF_INET6, by the answer of getsockopt(IPV6_PATHMTU).
unfoldable pub path_mtu : {S : Type 0} → Gnutls S → Option ℕ → Worker S → Worker S
path_mtu g none w = give_up g w
path_mtu g (some mtu) w = if ltb mtu 1280 then give_up g w else link_mtu_set g mtu w

unfoldable pub mtu_not_ok : {S : Type 0} → Gnutls S → Option ℕ → Worker S → Worker S
mtu_not_ok g answer w = elim w.dtls_session [
  | none ↦ w
  | some _ ↦
      if not w.try_mtu
      then w
      else if is_inet w.proto
      then too_large g w
      else if is_inet6 w.proto
      then path_mtu g answer w
      else w
]

unfoldable pub mtu_discovery_init : {S : Type 0} → Gnutls S → ℕ → Worker S → Worker S
mtu_discovery_init g mtu w = record (if leb mtu (min_mtu w) then disable_mtu_disc g w else w) {
  last_good_mtu = mtu;
  last_bad_mtu = mtu;
}

unfoldable pub mtu_ok : {S : Type 0} → Gnutls S → Worker S → Worker S
mtu_ok g w =
    if not w.try_mtu || is_inet6 w.proto
    then w
    else if (w.last_bad_mtu == (w.link_mtu + 1) % 2 ^ 32) || (w.last_bad_mtu == w.link_mtu)
    then w
    else link_mtu_set g ((w.link_mtu + w.last_bad_mtu) % 2 ^ 32 / 2)
        (record w { last_good_mtu = w.link_mtu })
