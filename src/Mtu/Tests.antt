-- ===== src/Mtu/Tests.antt =====
-- The MTU of a worker at concrete values (src/worker-vpn.c).
use ocserv.Prelude.{ℕ, ◌+◌, ◌≤◌, ◌<◌, ◌≡◌, refl, ◌⊎◌, true, false, List, [], ◌∷◌, none, some, arith}
use ocserv.Mtu.{
  Worker, Gnutls, inet, inet6, link_mtu_set, data_mtu_set, disable_mtu_disc, too_large, mtu_not_ok,
  mtu_ok, path_mtu, mtu_discovery_init, min_mtu,
}
use ocserv.Mtu.Events.{
  Op, start_dtls, packet, dpd, check, large, bytes, Overheads, Request, set_up, after_send, dpd_out,
  step, run, negotiate, calc_mtu_values, peer_mtu, least,
}
use ocserv.Mtu.Search.{probe, probes, full_packet, IsSettled}
use ocserv.Mtu.Outcome.{probes-IsSettled}
use ocserv.Mtu.Bounds.{IsBounded, run-IsBounded}
use ocserv.Mtu.Ceiling.{IsCapped, run-IsCapped}
use ocserv.Mtu.Agreed.{negotiate-agreed}

-- A session that is its MTU.
abbrev gnutls : Gnutls ℕ
gnutls = record {
  dtls_set_mtu = λ n s. n;
  dtls_set_data_mtu = λ n s. n + 37;
  dtls_get_mtu = λ s. s;
}

abbrev worker : Worker ℕ
worker = record {
  proto = inet;
  ipv6 = false;
  link_mtu = 1500;
  adv_link_mtu = 1500;
  last_good_mtu = 0;
  last_bad_mtu = 0;
  try_mtu = true;
  cstp_crypto_overhead = 40;
  cstp_proto_overhead = 40;
  dtls_crypto_overhead = 38;
  dtls_proto_overhead = 28;
  dtls_session = none;
  mtu_disc = true;
  mtu = 1500;
  told = [];
}

searched : (probes gnutls 1400 36 (set_up gnutls 0 worker)).link_mtu ≡ 1400
unfolding probes probe full_packet after_send mtu_ok mtu_not_ok too_large link_mtu_set set_up
    mtu_discovery_init disable_mtu_disc
searched = refl

-- With an advertised MTU of 1190 the search falls to 800, tries 995, and gives up.
given_up :
    (probes gnutls 990 36 (set_up gnutls 0 (record worker { adv_link_mtu = 1190 }))).link_mtu ≡ 800
unfolding probes probe full_packet after_send mtu_ok mtu_not_ok too_large link_mtu_set set_up
    mtu_discovery_init disable_mtu_disc
given_up = refl

probes-IsSettled_example :
    IsSettled gnutls 1400 1500 (probes gnutls 1400 36 (set_up gnutls 0 worker))
probes-IsSettled_example =
    probes-IsSettled gnutls 0 1400 worker refl refl (omega arith) (omega arith) (omega arith)

abbrev events : List (Op ℕ)
events = start_dtls 0 ∷ packet large none ∷ packet (bytes 935) none ∷ check (some 1100) ∷ []

events-run : (run gnutls events worker).link_mtu ≡ 1100
unfolding run step after_send mtu_ok mtu_not_ok too_large link_mtu_set set_up mtu_discovery_init
    disable_mtu_disc
events-run = refl

run-IsBounded_example : IsBounded (run gnutls (dpd 1600 false none ∷ events) worker)
run-IsBounded_example =
    run-IsBounded gnutls (dpd 1600 false none ∷ events) worker
      (record { low = omega arith; high = omega arith; room = omega arith; payloads = tt })

run-IsCapped_example : IsCapped 1500 (run gnutls events worker)
run-IsCapped_example =
    run-IsCapped gnutls 1500 events worker (tt, (tt, (tt, (tt, tt))))
      (record {
        four = refl;
        minimum = omega arith;
        same = refl;
        current = omega arith;
        passed = omega arith;
        failed = omega arith;
      })

-- A path MTU over IPv6, and a packet of the peer, take the link MTU above the advertised one.
beyond_by_path :
    (run gnutls
      (start_dtls 0 ∷ packet large (some 9000) ∷ [])
      (record worker { proto = inet6 })).link_mtu
    ≡ 9000
unfolding run step after_send mtu_not_ok path_mtu link_mtu_set set_up mtu_discovery_init
    disable_mtu_disc
beyond_by_path = refl

beyond_by_dpd : (run gnutls (start_dtls 0 ∷ dpd 1600 false none ∷ []) worker).link_mtu ≡ 1665
unfolding run step dpd_out data_mtu_set link_mtu_set set_up mtu_discovery_init disable_mtu_disc
beyond_by_dpd = refl

abbrev overheads : Overheads
overheads = record { cstp = 29; dtls = some 37; largest = 61 }

abbrev headers : Request
headers = record { link_mtu = 1420; tunnel_mtu = 1300 }

-- The path MTU of 1000 that TCP knows is lost.
lost : (negotiate gnutls overheads true 0 headers (some 1000) worker).link_mtu ≡ 1420
unfolding negotiate calc_mtu_values peer_mtu link_mtu_set
lost = refl

-- An MTU of 500 that is configured for the user is kept, though MIN_MTU is more.
below_minimum :
    ((negotiate gnutls overheads true 500 headers none worker).link_mtu ≡ 500)
    × (500 < min_mtu worker)
unfolding negotiate calc_mtu_values peer_mtu link_mtu_set
below_minimum = (refl, omega arith)

negotiate-agreed_example :
    let r = negotiate gnutls overheads true 0 headers (some 1000) worker in
    (r.link_mtu ≡ r.adv_link_mtu)
    × (r.link_mtu ≡ (negotiate gnutls overheads true 0 headers none worker).link_mtu)
    × (r.link_mtu ≤ 1500)
    × (least (min_mtu worker) 1500 ≤ r.link_mtu)
    × ((r.link_mtu ≤ 1420) ⊎ (1420 < min_mtu worker))
negotiate-agreed_example = negotiate-agreed gnutls overheads true 0 headers (some 1000) worker
