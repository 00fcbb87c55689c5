-- ===== src/Proxy/Consistent.antt =====
-- What the header of the proxy protocol can make of the addresses (src/worker-proxyproto.c).
use ocserv.Prelude.{
  ℕ, zero, suc, ◌+◌, ◌*◌, ◌/◌, ◌%◌, ◌≤◌, ◌<◌, ◌≡◌, refl, ◌∙◌, sym, not, ◌&&◌, [], ◌∷◌, ◌++◌, Option,
  none, some, arith, Bytes, bytes_eq, length, take, drop, length-take, length-drop, ltb, leb, ◌==◌,
  if◌then◌else◌, if_split, if_both,
}
use mathlib.Core.Path.{subst}
use ocserv.Address.{Family, af_inet, af_inet6, af_other, Inet}
use ocserv.Proxy.{
  Endpoints, size_of, endpoints, at_space, read_tcp, tcp4, tcp6, parse_proxy_proto_header_v1,
  proxy_header_v1, proxy_header_v2, recv_line, until_nul, byte_at, read_v1, set_addresses,
  force_read_timeout, max_data_size, read_v2, parse_proxy_proto_header,
}

abbrev pub octets : Family → ℕ
octets af_inet = 4
octets af_inet6 = 16
octets af_other = 0

-- Two addresses of one family, IPv4 or IPv6, with lengths that fit.
pub record IsConsistent (w : Endpoints) : Type 0 where
  pub same : w.our_addr.family ≡ w.remote_addr.family
  pub known : 0 < octets w.remote_addr.family
  pub remote_len : w.remote_addr_len ≡ size_of w.remote_addr.family
  pub our_len : w.our_addr_len ≡ size_of w.remote_addr.family
  pub remote : length w.remote_addr.address ≡ octets w.remote_addr.family
  pub our : length w.our_addr.address ≡ octets w.remote_addr.family
  pub remote_port : length w.remote_addr.port ≡ 2
  pub our_port : length w.our_addr.port ≡ 2

-- A predicate of the result, where there is one.
abbrev Ensures : {A : Type 0} → (A → Type 0) → Option A → Type 0
Ensures P none = Unit
Ensures P (some a) = P a

bind-Ensures :
    {A B : Type 0} (P : B → Type 0) (o : Option A) (f : A → Option B)
    → ((a : A) → o ≡ some a → Ensures P (f a))
    → Ensures P (elim o [ none ↦ none | some a ↦ f a ])
bind-Ensures P none f h = tt
bind-Ensures P (some a) f h = h a refl

endpoints-IsConsistent :
    (family : Family) (src dst src_port dst_port : Bytes)
    → 0 < octets family
    → length src ≡ octets family
    → length dst ≡ octets family
    → length src_port ≡ 2
    → length dst_port ≡ 2
    → IsConsistent (endpoints family src dst src_port dst_port)
endpoints-IsConsistent family src dst src_port dst_port k a b c d = record {
  same = refl;
  known = k;
  remote_len = refl;
  our_len = refl;
  remote = a;
  our = b;
  remote_port = c;
  our_port = d;
}

pton-octets :
    (inet : Inet) (family : Family) (text a : Bytes)
    → 0 < octets family
    → inet.pton family text ≡ some a
    → length a ≡ octets family
pton-octets inet af_inet text a k h = inet.pton_inet-length text h
pton-octets inet af_inet6 text a k h = inet.pton_inet6-length text h
pton-octets inet af_other text a k h = absurd (omega (arith, k))

module _ (inet : Inet) (atoi : Bytes → ℕ) where
  read_tcp-IsConsistent :
      (family : Family) (line : Bytes)
      → 0 < octets family
      → Ensures IsConsistent (read_tcp inet atoi family line)
  unfolding read_tcp
  read_tcp-IsConsistent family line k =
      bind-Ensures IsConsistent (at_space line) _ λ (p : Bytes × Bytes) _.
        bind-Ensures IsConsistent (inet.pton family p.0) _ λ src hs.
          bind-Ensures IsConsistent (at_space p.1) _ λ (q : Bytes × Bytes) _.
            bind-Ensures IsConsistent (inet.pton family q.0) _ λ dst hd.
              bind-Ensures IsConsistent (at_space q.1) _ λ (r : Bytes × Bytes) _.
                endpoints-IsConsistent family src dst _ _ k (pton-octets inet family p.0 src k hs)
                  (pton-octets inet family q.0 dst k hd) refl refl

  v1-IsConsistent :
      (line : Bytes) → Ensures IsConsistent (parse_proxy_proto_header_v1 inet atoi line)
  unfolding parse_proxy_proto_header_v1
  v1-IsConsistent line =
      let P : Option Endpoints → Type 0 = Ensures IsConsistent in
      if_both P (bytes_eq (take 5 line) tcp4) _ _
        (read_tcp-IsConsistent af_inet (drop 5 line) (omega arith))
        (if_both P (bytes_eq (take 5 line) tcp6) _ _
          (read_tcp-IsConsistent af_inet6 (drop 5 line) (omega arith)) tt)

-- What is left is the input but for so many bytes at most.
abbrev pub IsRest : ℕ → Bytes → Bytes → Type 0
IsRest most input rest = (n : ℕ) × (n ≤ most) × (drop n input ≡ rest)

drop_nil : (n : ℕ) → drop {A = ℕ} n [] ≡ []
drop_nil zero = refl
drop_nil (suc n) = refl

pub drop-drop : (m n k : ℕ) (p : Bytes) → k ≡ m + n → drop k p ≡ drop n (drop m p)
drop-drop zero n k p e = let e' : k ≡ n = omega (arith, e) in rw e' refl
drop-drop (suc m) n k [] e = drop_nil k ∙ sym (drop_nil n)
drop-drop (suc m) n zero (x ∷ p) e = absurd (omega (arith, e))
drop-drop (suc m) n (suc k) (x ∷ p) e = drop-drop m n k p (omega (arith, e))

more-IsRest :
    (m most : ℕ) (input rest : Bytes)
    → IsRest most (drop m input) rest
    → IsRest (m + most) input rest
more-IsRest m most input rest (n, few, e) =
    (m + n, omega (arith, few), drop-drop m n (m + n) input refl ∙ e)

recv_line-IsRest :
    (n last : ℕ) (input : Bytes)
    → Ensures (λ (r : Bytes × Bytes). IsRest n input r.1) (recv_line n last input)
unfolding recv_line
recv_line-IsRest zero last input = tt
recv_line-IsRest (suc n) last [] = tt
recv_line-IsRest (suc n) last (c ∷ input) =
    let P : Bytes × Bytes → Type 0 = λ r. IsRest (suc n) (c ∷ input) r.1 in
    let byte = if c == 13 then 0 else c in
    let here : P ([], input) = (1, omega arith, refl) in
    if_both (Ensures P) (c == 10) _ _ (if_both (Ensures P) (last == 0) _ _ here tt) (
      bind-Ensures P (recv_line n byte input) _ λ (r : Bytes × Bytes) e.
        let (k, few, same) =
          subst (Ensures (λ (r : Bytes × Bytes). IsRest n input r.1)) e
            (recv_line-IsRest n byte input) in
        (suc k, omega (arith, few), same))

set_addresses-IsConsistent :
    (ver_cmd family : ℕ) (p : Bytes) (w : Endpoints)
    → IsConsistent w
    → Ensures IsConsistent (set_addresses ver_cmd family p w)
unfolding set_addresses
set_addresses-IsConsistent ver_cmd family p w c =
    let P : Option Endpoints → Type 0 = Ensures IsConsistent in
    let l4 = λ (big : 12 ≤ length p).
      endpoints-IsConsistent af_inet (take 4 p) (take 4 (drop 4 p)) (take 2 (drop 8 p))
        (take 2 (drop 10 p)) (omega arith) (omega (arith, length-take 4 p))
        (omega (arith, length-take 4 (drop 4 p), length-drop 4 p))
        (omega (arith, length-take 2 (drop 8 p), length-drop 8 p))
        (omega (arith, length-take 2 (drop 10 p), length-drop 10 p)) in
    let l6 = λ (big : 36 ≤ length p).
      endpoints-IsConsistent af_inet6 (take 16 p) (take 16 (drop 16 p)) (take 2 (drop 32 p))
        (take 2 (drop 34 p)) (omega arith) (omega (arith, length-take 16 p))
        (omega (arith, length-take 16 (drop 16 p), length-drop 16 p))
        (omega (arith, length-take 2 (drop 32 p), length-drop 32 p))
        (omega (arith, length-take 2 (drop 34 p), length-drop 34 p)) in
    if_both P (not (ver_cmd / 16 % 16 == 2)) _ _ c (
      if_both P (not (ver_cmd % 16 == 1) && not (ver_cmd % 16 == 0)) _ _ tt (
        if_both P (not (family / 16 % 16 == 1) && not (family / 16 % 16 == 2)) _ _ c (
          if_both P (not (family % 16 == 1) && not (family % 16 == 0)) _ _ c (
            if_both P (family / 16 % 16 == 1) _ _
              (if_split P (ltb (length p) 12) _ _ (λ _. c) (λ t. l4 (ground arith)))
              (if_split P (ltb (length p) 36) _ _ (λ _. c) (λ t. l6 (ground arith)))))))

-- The predicate of the theorem below.
abbrev Good : ℕ → Bytes → Endpoints × Bytes → Type 0
Good most input r = IsConsistent r.0 × IsRest most input r.1

force_read :
    (n : ℕ) (input : Bytes) (r : Bytes × Bytes)
    → force_read_timeout n input ≡ some r
    → r.1 ≡ drop n input
force_read n input r =
    if_split (λ o. o ≡ some r → r.1 ≡ drop n input) (leb n (length input)) _ _ (λ _ e. cc)
      (λ _ e. cc)

module _ (inet : Inet) (atoi : Bytes → ℕ) where
  read_v1-Good : (hdr input : Bytes) → Ensures (Good 92 input) (read_v1 inet atoi hdr input)
  unfolding read_v1
  read_v1-Good hdr input =
      bind-Ensures (Good 92 input) (recv_line 92 (byte_at 15 hdr) input) _ λ (r : Bytes × Bytes) e.
        bind-Ensures (Good 92 input)
          (parse_proxy_proto_header_v1 inet atoi (until_nul (drop 6 hdr ++ r.0))) _
          λ w' ew. (
            subst (Ensures IsConsistent) ew
                (v1-IsConsistent inet atoi (until_nul (drop 6 hdr ++ r.0))),
            subst (Ensures (λ (r : Bytes × Bytes). IsRest 92 input r.1)) e
                (recv_line-IsRest 92 (byte_at 15 hdr) input),
          )

read_v2-Good :
    (hdr input : Bytes) (w : Endpoints)
    → IsConsistent w
    → Ensures (Good 520 input) (read_v2 hdr input w)
unfolding read_v2
read_v2-Good hdr input w c =
    let size = byte_at 14 hdr * 256 + byte_at 15 hdr in
    if_split (Ensures (Good 520 input)) (ltb max_data_size size) _ _ (λ _. tt)
      (λ t. bind-Ensures (Good 520 input) (force_read_timeout size input) _ λ (r : Bytes × Bytes) e.
        bind-Ensures (Good 520 input) (set_addresses (byte_at 12 hdr) (byte_at 13 hdr) r.0 w) _
          λ w' ew. (
            subst (Ensures IsConsistent) ew
                (set_addresses-IsConsistent (byte_at 12 hdr) (byte_at 13 hdr) r.0 w c),
            (size, ground arith, sym (force_read size input r e)),
          ))

widen :
    (few most : ℕ) (input left : Bytes) (o : Option (Endpoints × Bytes))
    → few ≤ most
    → left ≡ drop 16 input
    → Ensures (Good few left) o
    → Ensures (Good (16 + most) input) o
widen few most input left none small e h = tt
widen few most input left (some (w, rest)) small e (c, (n, fits, r)) =
    (c, more-IsRest 16 most input rest (n, omega (arith, fits, small), rw (← e) r))

-- Whatever comes in, if the header is accepted, then the two addresses are of one family, IPv4 or
-- IPv6, with lengths that fit, if those before it were; and it takes 536 bytes of the input at most.
pub header-IsConsistent :
    (inet : Inet) (atoi : Bytes → ℕ) (input : Bytes) (w w' : Endpoints) (rest : Bytes)
    → IsConsistent w
    → parse_proxy_proto_header inet atoi input w ≡ some (w', rest)
    → IsConsistent w' × IsRest 536 input rest
unfolding parse_proxy_proto_header
header-IsConsistent inet atoi input w w' rest c h =
    let P = Good 536 input in
    let result : Ensures P (parse_proxy_proto_header inet atoi input w) =
      bind-Ensures P (force_read_timeout 16 input) _ λ (r : Bytes × Bytes) e.
        let left = force_read 16 input r e in
        if_both (Ensures P) (bytes_eq (take 6 r.0) proxy_header_v1) _ _
          (widen 92 520 input r.1 _ (omega arith) left (read_v1-Good inet atoi r.0 r.1))
          (if_both (Ensures P) (not (bytes_eq (take 12 r.0) proxy_header_v2)) _ _ tt
            (widen 520 520 input r.1 _ (omega arith) left (read_v2-Good r.0 r.1 w c))) in
    subst (Ensures P) h result
