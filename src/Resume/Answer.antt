-- ===== src/Resume/Answer.antt =====
-- What the cache of TLS sessions answers (handle_resume_fetch_req, src/sec-mod-resume.c).
use ocserv.Prelude.{
  ℕ, ◌≤◌, ◌≡◌, ◌≢◌, ◌⊎◌, refl, sym, ◌∙◌, ap, inl, inr, Bool, true, false, Option, none, some, List,
  [], ◌∷◌, arith, Bytes, bytes_eq_sound, if◌then◌else◌, Bool-cases,
}
use mathlib.Core.List.Permᴰ
use mathlib.Core.List.{mem-append_left, Mem, mem-cons_self, mem-cons_of_mem}
use ocserv.Table.{Chained, count, find, find-chain, count-chain}
use ocserv.Address.{Family, af_inet, family_eq, ip_cmp}
use ocserv.Resume.{
  Peer, Cache, TlsDb, FetchReq, handle_resume_fetch_req, fetch_in, has_id, names_differ,
  pointers_differ, same_peer,
}

-- The answer that an entry justifies: the virtual host is named neither by the request nor by the
-- entry, and the client has the address of the entry.
unfoldable pub answer_of : FetchReq → Option Cache → Option Bytes
answer_of r none = none
answer_of r (some c) =
    if pointers_differ r.vhost c.vhostname
    then none
    else if same_peer r.cli_addr c.remote
    then some c.session_data
    else none

-- The two addresses are as long, and their IPv4 addresses agree if the first is one, their IPv6
-- addresses if it is another.
pub record IsSamePeer (a b : Peer) : Type 0 where
  pub len : a.len ≡ b.len
  pub bytes :
      (a.addr.family ≡ af_inet) × (a.addr.sin_addr ≡ b.addr.sin_addr)
      ⊎ (a.addr.family ≢ af_inet) × (a.addr.sin6_addr ≡ b.addr.sin6_addr)

family_eq_sound : (f : Family) → family_eq f af_inet ≡ true → f ≡ af_inet
unfolding family_eq
family_eq_sound f h = ground arith

same_peer-IsSamePeer : (a b : Peer) → same_peer a b ≡ true → IsSamePeer a b
unfolding ip_cmp
same_peer-IsSamePeer a b h = record {
  len = ground arith;
  bytes = elim (Bool-cases (family_eq a.addr.family af_inet)) [
    | inl four ↦ inl (
      family_eq_sound a.addr.family four,
      bytes_eq_sound a.addr.sin_addr b.addr.sin_addr (ground arith),
    )
    | inr six ↦
        inr (λ e. ground arith, bytes_eq_sound a.addr.sin6_addr b.addr.sin6_addr (ground arith))
  ];
}

-- The data of an entry of the table that has the identifier of the request and was stored from
-- its address, where neither names a virtual host.
pub record Justified (r : FetchReq) (t : List Cache) (d : Bytes) : Type 0 where
  pub entry : Cache
  pub member : Mem entry t
  pub same_id : entry.session_id ≡ r.session_id
  pub unnamed : (r.vhost ≡ none) × (entry.vhostname ≡ none)
  pub same_peer : IsSamePeer r.cli_addr entry.remote
  pub same_data : entry.session_data ≡ d

module _ (caseless : Bytes → Bytes → Bool) (r : FetchReq) where
  agree_names :
      (b : Option Bytes)
      → pointers_differ r.vhost b ≡ false
      → names_differ caseless r.vhost b ≡ false
  unfolding pointers_differ names_differ
  agree_names b h = go r.vhost b h
    where
      go : (a b : Option Bytes) → pointers_differ a b ≡ false → names_differ caseless a b ≡ false
      go none b h = refl
      go (some a) b h = cc

  fetch_none : (t : List Cache) → count (has_id r.session_id) t ≡ 0 → fetch_in caseless r t ≡ none
  unfolding fetch_in count
  fetch_none [] h = refl
  fetch_none (c ∷ t) h = ground (arith, fetch_none t)

  -- The loop answers by the one entry of the identifier, if no other has it.
  pub fetch_in-answer :
      (t : List Cache)
      → count (has_id r.session_id) t ≤ 1
      → fetch_in caseless r t ≡ answer_of r (find (has_id r.session_id) t)
  unfolding fetch_in count answer_of find
  fetch_in-answer [] h = refl
  fetch_in-answer (c ∷ t) h =
      let rest = fetch_in-answer t in
      let nothing = fetch_none t in
      let names = agree_names c.vhostname in
      elim (Bool-cases (has_id r.session_id c)) [
        | inr other ↦ ground (arith, rest)
        | inl mine ↦ elim (Bool-cases (pointers_differ r.vhost c.vhostname)) [
          | inl differ ↦ ground arith
          | inr same ↦ let fine = names same in ground (arith, nothing)
        ]
      ]

  unnamed_lem : (a b : Option Bytes) → pointers_differ a b ≡ false → (a ≡ none) × (b ≡ none)
  unfolding pointers_differ
  unnamed_lem a b h = ground arith

  further : {t : List Cache} {d : Bytes} (c : Cache) → Justified r t d → Justified r (c ∷ t) d
  further c j = record {
    entry = j.entry;
    member = mem-cons_of_mem c j.member;
    same_id = j.same_id;
    unnamed = j.unnamed;
    same_peer = j.same_peer;
    same_data = j.same_data;
  }

  -- An answer is that of an entry of the table.
  pub fetch_in-Justified :
      (t : List Cache) (d : Bytes) → fetch_in caseless r t ≡ some d → Justified r t d
  unfolding fetch_in answer_of
  fetch_in-Justified [] d h = cc
  fetch_in-Justified (c ∷ t) d h =
      let in_rest : fetch_in caseless r t ≡ some d → Justified r (c ∷ t) d =
        λ again. further c (fetch_in-Justified t d again) in
      elim (Bool-cases (has_id r.session_id c)) [
        | inr other ↦ in_rest (ground arith)
        | inl mine ↦ elim (Bool-cases (pointers_differ r.vhost c.vhostname)) [
          | inl differ ↦ absurd (ground arith)
          | inr same ↦
              let fine = agree_names c.vhostname same in
              elim (Bool-cases (same_peer r.cli_addr c.remote)) [
                | inr elsewhere ↦ in_rest (ground arith)
                | inl here ↦ record {
                  entry = c;
                  member = mem-cons_self;
                  same_id = sym (bytes_eq_sound r.session_id c.session_id mine);
                  unnamed = unnamed_lem r.vhost c.vhostname same;
                  same_peer = same_peer-IsSamePeer r.cli_addr c.remote here;
                  same_data = ground arith;
                }
              ]
        ]
      ]

module _ (hash_any : Bytes → ℕ) (ct : Chained Cache (λ c. hash_any c.session_id))
    (caseless : Bytes → Bytes → Bool) (r : FetchReq) (s : TlsDb) where
  -- Where no two entries have the identifier of the request, the answer is the session data of its
  -- entry if it was stored without the name of a virtual host, from the same address, and the
  -- request does not name a virtual host either; else there is none.
  pub fetch-answer :
      count (has_id r.session_id) s.ht ≤ 1
      → handle_resume_fetch_req hash_any ct caseless r s
        ≡ answer_of r (find (has_id r.session_id) s.ht)
  unfolding handle_resume_fetch_req
  fetch-answer one =
      let key = hash_any r.session_id in
      let hashed = λ (c : Cache) (e : has_id r.session_id c ≡ true).
        ap hash_any (sym (bytes_eq_sound r.session_id c.session_id e)) in
      fetch_in-answer caseless r (ct.chain key s.ht)
        (omega (arith, count-chain ct key (has_id r.session_id) hashed s.ht, one))
      ∙ ap (answer_of r) (find-chain ct key (has_id r.session_id) hashed s.ht one)

  -- Every answer is the session data of an entry of the table that has the identifier of the
  -- request; neither the request nor the entry names a virtual host; and the address of the
  -- request and that of the entry are as long and have the same IPv4 address, if that of the
  -- request is of AF_INET, or else the same IPv6 address.
  pub fetch-Justified :
      (d : Bytes) → handle_resume_fetch_req hash_any ct caseless r s ≡ some d → Justified r s.ht d
  unfolding handle_resume_fetch_req
  fetch-Justified d h =
      let key = hash_any r.session_id in
      let j = fetch_in-Justified caseless r (ct.chain key s.ht) d h in
      record {
        entry = j.entry;
        member =
            Permᴰ.mem (Permᴰ.symm (ct.chain-perm key s.ht))
              (mem-append_left (ct.others key s.ht) j.member);
        same_id = j.same_id;
        unnamed = j.unnamed;
        same_peer = j.same_peer;
        same_data = j.same_data;
      }
