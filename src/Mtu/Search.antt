-- ===== src/Mtu/Search.antt =====
-- The search for the MTU of a path over IPv4 (src/worker-vpn.c): packets of full size are sent on a
-- path that passes up to so many bytes, until nothing changes.
use ocserv.Prelude.{
  ℕ, zero, suc, ◌+◌, ◌*◌, ◌/◌, ◌%◌, ◌^◌, ◌≤◌, ◌<◌, ◌≡◌, refl, ap, ◌∙◌, Bool, true, false, ◌||◌,
  Option, none, some, arith, ltb, leb, ◌==◌, if◌then◌else◌, ◌⊎◌, if_split,
}
use ocserv.Mtu.{
  Worker, Gnutls, data_mtu, is_inet, is_inet6, inet, inet6, other, LinkFamily, min_mtu,
  link_mtu_set, mtu_not_ok, mtu_ok, disable_mtu_disc, too_large, session_mtu, buffer_size,
}
use ocserv.Mtu.Events.{Sent, large, bytes, after_send}

abbrev pub has_session : {S : Type 0} → Option S → Bool
has_session none = false
has_session (some _) = true

-- link_mtu_set with an MTU in range.
pub record IsApplied {S : Type 0} (mtu : ℕ) (w w' : Worker S) : Type 0 where
  pub link : w'.link_mtu ≡ mtu
  pub good : w'.last_good_mtu ≡ w.last_good_mtu
  pub bad : w'.last_bad_mtu ≡ w.last_bad_mtu
  pub tries : w'.try_mtu ≡ w.try_mtu
  pub proto : w'.proto ≡ w.proto
  pub ipv6 : w'.ipv6 ≡ w.ipv6
  pub adv : w'.adv_link_mtu ≡ w.adv_link_mtu
  pub session : has_session w'.dtls_session ≡ has_session w.dtls_session

session_mtu-has :
    {S : Type 0} (g : Gnutls S) (n : ℕ) (o : Option S)
    → has_session (session_mtu g n o) ≡ has_session o
session_mtu-has g n none = refl
session_mtu-has g n (some s) = refl

pub link_mtu_set-IsApplied :
    {S : Type 0} (g : Gnutls S) (mtu : ℕ) (w : Worker S)
    → min_mtu w ≤ mtu
    → mtu ≤ buffer_size
    → IsApplied mtu w (link_mtu_set g mtu w)
unfolding link_mtu_set
link_mtu_set-IsApplied g mtu w low high =
    if_split (λ r. IsApplied mtu w r) _ _ _
      (λ t.
        let e : w.link_mtu ≡ mtu = ground arith in
        record {
          link = e;
          good = refl;
          bad = refl;
          tries = refl;
          proto = refl;
          ipv6 = refl;
          adv = refl;
          session = refl;
        })
      (λ _. record {
        link = refl;
        good = refl;
        bad = refl;
        tries = refl;
        proto = refl;
        ipv6 = refl;
        adv = refl;
        session = session_mtu-has g _ w.dtls_session;
      })

inet_only : (f : LinkFamily) → is_inet f ≡ true → is_inet6 f ≡ false
inet_only inet h = refl
inet_only inet6 h = cc
inet_only other h = refl

-- A worker that searches: IPv4, with a session, and discovery on.
pub record IsReady {S : Type 0} (w : Worker S) : Type 0 where
  pub tries : w.try_mtu ≡ true
  pub proto : is_inet w.proto ≡ true
  pub session : has_session w.dtls_session ≡ true
  pub low : min_mtu w ≤ w.last_good_mtu
  pub ordered : w.last_good_mtu ≤ w.link_mtu
  pub high : w.link_mtu ≤ buffer_size

pub mtu_ok-raises :
    {S : Type 0} (g : Gnutls S) (w : Worker S)
    → IsReady w
    → w.link_mtu + 1 < w.last_bad_mtu
    → w.last_bad_mtu ≤ buffer_size
    → mtu_ok g w
      ≡ link_mtu_set g ((w.link_mtu + w.last_bad_mtu) / 2) (record w { last_good_mtu = w.link_mtu })
unfolding mtu_ok
mtu_ok-raises g w r apart high =
    let six = inet_only w.proto r.proto in
    let l = r.high in
    let t = r.tries in
    let a : ((w.last_bad_mtu == (w.link_mtu + 1) % 2 ^ 32) || (w.last_bad_mtu == w.link_mtu))
        ≡ false =
      ground arith in
    let b : (w.link_mtu + w.last_bad_mtu) % 2 ^ 32 / 2 ≡ (w.link_mtu + w.last_bad_mtu) / 2 =
      omega arith in
    rw (t, six) (rw a (rw b refl))

pub mtu_ok-rests :
    {S : Type 0} (g : Gnutls S) (w : Worker S)
    → IsReady w
    → (w.last_bad_mtu ≡ w.link_mtu + 1) ⊎ (w.last_bad_mtu ≡ w.link_mtu)
    → mtu_ok g w ≡ w
unfolding mtu_ok
mtu_ok-rests g w r e =
    let l = r.high in
    let a : ((w.last_bad_mtu == (w.link_mtu + 1) % 2 ^ 32) || (w.last_bad_mtu == w.link_mtu))
        ≡ true =
      ground arith in
    rw a (ground arith)

pub mtu_not_ok-too_large :
    {S : Type 0} (g : Gnutls S) (answer : Option ℕ) (w : Worker S)
    → IsReady w
    → mtu_not_ok g answer w ≡ too_large g w
unfolding mtu_not_ok
mtu_not_ok-too_large g answer w r = ground (arith, r.tries, r.proto, r.session)

-- The next value to try after a failure.
unfoldable pub lowered : {S : Type 0} → Worker S → ℕ
lowered w =
    if leb w.link_mtu w.last_good_mtu
    then (let t = 2 * w.link_mtu / 3 in if ltb (min_mtu w) t then t else min_mtu w)
    else w.last_good_mtu

pub too_large-lowers :
    {S : Type 0} (g : Gnutls S) (w : Worker S)
    → IsReady w
    → min_mtu w < w.last_good_mtu
    → too_large g w
      ≡ link_mtu_set g
          (lowered w)
          (record w { last_bad_mtu = w.link_mtu; last_good_mtu = lowered w })
unfolding too_large lowered
too_large-lowers g w r above =
    let l = r.high in
    let a : (w.last_good_mtu == min_mtu w) ≡ false = ground arith in
    let b : 2 * w.link_mtu % 2 ^ 32 / 3 ≡ 2 * w.link_mtu / 3 = omega arith in rw a (rw b refl)

pub min_mtu-small : {S : Type 0} (w : Worker S) → (800 ≤ min_mtu w) × (min_mtu w ≤ buffer_size)
min_mtu-small w = ground arith

pub link_mtu_set-ipv6 :
    {S : Type 0} (g : Gnutls S) (mtu : ℕ) (w : Worker S) → (link_mtu_set g mtu w).ipv6 ≡ w.ipv6
unfolding link_mtu_set
link_mtu_set-ipv6 {S} g mtu w =
    if_split (λ (r : Worker S). r.ipv6 ≡ w.ipv6) _ _ _ (λ _. refl) (λ _. refl)

-- What giving up comes to.
pub too_large-gives_up :
    {S : Type 0} (g : Gnutls S) (w : Worker S)
    → w.last_good_mtu ≡ min_mtu w
    → ((too_large g w).link_mtu ≡ min_mtu w)
      × ((too_large g w).try_mtu ≡ false)
      × (min_mtu (too_large g w) ≡ min_mtu w)
unfolding too_large disable_mtu_disc
too_large-gives_up g w e =
    let a : (w.last_good_mtu == min_mtu w) ≡ true = ground arith in
    let w1 = record w { last_bad_mtu = w.link_mtu; mtu_disc = false } in
    let w2 = record (link_mtu_set g w.adv_link_mtu w1) { try_mtu = false } in
    let six : w2.ipv6 ≡ w.ipv6 = link_mtu_set-ipv6 g w.adv_link_mtu w1 in
    let same : min_mtu w2 ≡ min_mtu w = ap (λ b. if b then 1280 else 800) six in
    let s = link_mtu_set-IsApplied g (min_mtu w) w2 (rw same (omega arith)) (min_mtu-small w).1 in
    let back = ap (λ b. if b then 1280 else 800) s.ipv6 in rw a (s.link, s.tries, back ∙ same)

-- A packet of full size on a path that passes `path` bytes.
unfoldable pub full_packet : {S : Type 0} → ℕ → Worker S → Sent
full_packet path w =
    if leb w.link_mtu path then bytes ((1 + data_mtu w w.link_mtu) % 2 ^ 32) else large

unfoldable pub probe : {S : Type 0} → Gnutls S → ℕ → Worker S → Worker S
probe g path w = after_send g none (full_packet path w) w

unfoldable pub probes : {S : Type 0} → Gnutls S → ℕ → ℕ → Worker S → Worker S
probes g path zero w = w
probes g path (suc n) w = probes g path n (probe g path w)

leb_refl : (n : ℕ) → leb n n ≡ true
leb_refl n = ground arith

pub probe-passes :
    {S : Type 0} (g : Gnutls S) (path : ℕ) (w : Worker S)
    → w.link_mtu ≤ path
    → probe g path w ≡ (if w.try_mtu then mtu_ok g w else w)
unfolding probe full_packet after_send
probe-passes g path w fits =
    let a : leb w.link_mtu path ≡ true = ground arith in
    rw a (rw (leb_refl ((1 + data_mtu w w.link_mtu) % 2 ^ 32)) refl)

pub probe-fails :
    {S : Type 0} (g : Gnutls S) (path : ℕ) (w : Worker S)
    → path < w.link_mtu
    → probe g path w ≡ mtu_not_ok g none w
unfolding probe full_packet after_send
probe-fails g path w over = let a : leb w.link_mtu path ≡ false = ground arith in rw a refl

-- The search has ended: packets pass, and another one changes nothing. The MTU is the largest that
-- passes or the one advertised, or the least, where discovery was given up.
pub record IsSettled {S : Type 0} (g : Gnutls S) (path adv : ℕ) (w : Worker S) : Type 0 where
  pub passes : w.link_mtu ≤ path
  pub rests : probe g path w ≡ w
  pub outcome :
      ((w.link_mtu ≡ path) ⊎ (w.link_mtu ≡ adv)) ⊎ ((w.link_mtu ≡ min_mtu w) × (w.try_mtu ≡ false))
