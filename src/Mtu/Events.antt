-- ===== src/Mtu/Events.antt =====
-- Where the worker sets its MTU (src/worker-vpn.c): the request CONNECT, the start of a DTLS session,
-- packets sent, dead peer detection, and the periodic check.
use ocserv.Prelude.{
  ℕ, ◌+◌, ◌-◌, ◌%◌, ◌^◌, Bool, false, ◌&&◌, List, [], ◌∷◌, Option, none, some, ltb, leb,
  if◌then◌else◌,
}
use ocserv.Mtu.{
  Worker, Gnutls, data_mtu, subtract, is_inet, min_mtu, link_mtu_set, data_mtu_set, mtu_not_ok,
  mtu_ok, mtu_discovery_init,
}

-- What tls_get_overhead answers for the TLS session, for the chosen DTLS ciphersuite (none where
-- there is neither a pre-shared key nor a ciphersuite), and for the one with the largest overhead.
pub record Overheads : Type 0 where
  pub cstp : ℕ
  pub dtls : Option ℕ
  pub largest : ℕ

-- The two headers of struct http_req_st.
pub record Request : Type 0 where
  pub link_mtu : ℕ
  pub tunnel_mtu : ℕ

abbrev pub ip_header_size : {S : Type 0} → Worker S → ℕ
ip_header_size w = if is_inet w.proto then 20 else 40

abbrev pub set_dtls_overhead : {S : Type 0} → Option ℕ → Worker S → ℕ
set_dtls_overhead none w = (w.dtls_crypto_overhead + 1) % 2 ^ 32
set_dtls_overhead (some n) w = (n + 1) % 2 ^ 32

unfoldable pub calc_mtu_values : {S : Type 0} → Overheads → Bool → Worker S → Worker S
calc_mtu_values o udp w = record w {
  cstp_proto_overhead = ip_header_size w + 20;
  dtls_proto_overhead = ip_header_size w + 8;
  cstp_crypto_overhead = (8 + o.cstp) % 2 ^ 32;
  link_mtu = w.mtu;
  dtls_crypto_overhead = if udp then set_dtls_overhead o.dtls w else w.dtls_crypto_overhead;
  adv_link_mtu = w.mtu;
}

-- The link MTU that the tunnel MTU of an old client comes to.
abbrev pub back_computed : {S : Type 0} → Overheads → Request → Worker S → ℕ
back_computed o req w = (req.tunnel_mtu + (ip_header_size w + 8) + (1 + o.largest)) % 2 ^ 32

abbrev pub least : ℕ → ℕ → ℕ
least a b = if ltb a b then a else b

-- What the headers of the client make of vinfo.mtu.
unfoldable pub peer_mtu : {S : Type 0} → Overheads → Request → Worker S → ℕ
peer_mtu o req w =
    if leb (min_mtu w) req.link_mtu
    then least w.mtu req.link_mtu
    else if ltb 0 req.link_mtu
    then w.mtu
    else if ltb 0 req.tunnel_mtu && leb (min_mtu w) (back_computed o req w)
    then least w.mtu (back_computed o req w)
    else w.mtu

-- The answer of get_pmtu_approx, where it is positive and below the limit, sets the link MTU.
abbrev pub reduce : {S : Type 0} → Gnutls S → Option ℕ → ℕ → Worker S → Worker S
reduce g none limit w = w
reduce g (some max) limit w = if ltb 0 max && ltb max limit then link_mtu_set g max w else w

-- The part of connect_handler between the state of UDP and the addresses.
unfoldable pub negotiate :
    {S : Type 0} → Gnutls S → Overheads → Bool → ℕ → Request → Option ℕ → Worker S → Worker S
negotiate g o udp user_mtu req pmtu w =
    let w1 = record w { mtu = if ltb 0 user_mtu then user_mtu else w.mtu } in
    let w2 = record w1 { mtu = peer_mtu o req w1 } in
    calc_mtu_values o udp (reduce g pmtu w2.mtu w2)

-- UP_SETUP with a new session: the MTU of setup_dtls_connection, then that of dtls_mainloop.
unfoldable pub set_up : {S : Type 0} → Gnutls S → S → Worker S → Worker S
set_up g s w =
    let w1 = link_mtu_set g w.adv_link_mtu w in
    let s' = g.dtls_set_mtu (subtract w1.link_mtu w1.dtls_proto_overhead) s in
    mtu_discovery_init g w1.link_mtu (record w1 { dtls_session = some s' })

-- The result of dtls_send, an int: GNUTLS_E_LARGE_PACKET, another negative one, or the bytes sent.
pub data Sent : Type 0 where
  large : Sent
  negative : ℕ → Sent
  bytes : ℕ → Sent

-- Whether a result, as an unsigned int, is that of a packet of full size.
abbrev pub is_full : {S : Type 0} → Worker S → Sent → Bool
is_full w large = false
is_full w (negative n) = leb ((1 + data_mtu w w.link_mtu) % 2 ^ 32) (2 ^ 32 - n)
is_full w (bytes n) = leb ((1 + data_mtu w w.link_mtu) % 2 ^ 32) n

-- After a packet of the tun device was sent, and no fatal error met.
unfoldable pub after_send : {S : Type 0} → Gnutls S → Option ℕ → Sent → Worker S → Worker S
after_send g answer large w = mtu_not_ok g answer w
after_send g answer (negative n) w = if is_full w (negative n) && w.try_mtu then mtu_ok g w else w
after_send g answer (bytes n) w = if is_full w (bytes n) && w.try_mtu then mtu_ok g w else w

-- AC_PKT_DPD_OUT over DTLS, with a packet of `size` bytes: whether the response was too large to
-- send, and the answer of getsockopt then.
unfoldable pub dpd_out : {S : Type 0} → Gnutls S → ℕ → Bool → Option ℕ → Worker S → Worker S
dpd_out g size too_big answer w =
    let inner = (size + (2 ^ 64 - 1)) % 2 ^ 64 in
    let w1 = if ltb (data_mtu w w.link_mtu) inner then data_mtu_set g (inner % 2 ^ 32) w else w in
    if too_big then mtu_not_ok g answer w1 else w1

-- What happens to the MTU of a worker after CONNECT; `other_dtls` stands for a change to the other
-- dtls_st, with its session.
pub data Op (S : Type 0) : Type 0 where
  start_dtls : S → Op S
  packet : Sent → Option ℕ → Op S
  dpd : ℕ → Bool → Option ℕ → Op S
  check : Option ℕ → Op S
  other_dtls : Option S → Op S

unfoldable pub step : {S : Type 0} → Gnutls S → Op S → Worker S → Worker S
step g (start_dtls s) w = set_up g s w
step g (packet ret answer) w = after_send g answer ret w
step g (dpd size too_big answer) w = dpd_out g size too_big answer w
step g (check pmtu) w = reduce g pmtu w.link_mtu w
step g (other_dtls o) w = record w { dtls_session = o }

unfoldable pub run : {S : Type 0} → Gnutls S → List (Op S) → Worker S → Worker S
run g [] w = w
run g (op ∷ ops) w = run g ops (step g op w)
