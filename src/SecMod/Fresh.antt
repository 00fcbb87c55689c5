-- ===== src/SecMod/Fresh.antt =====
-- The identifiers of new sessions (src/sec-mod-db.c, src/sec-mod.h).
use ocserv.Prelude.{
  ℕ, zero, suc, ◌+◌, ◌<◌, ◌≡◌, inl, inr, arith, Option, some, Option-cases, [], ◌∷◌, Bytes, length,
}
use ocserv.Table.{Htable}
use ocserv.SecMod.Entry.{
  Client, Vhost, Sec, sid_size, same_sid, instance_index_put, instance_index_get,
}
use ocserv.SecMod.Db.{draw_sid, add_client, fresh_client, new_client_entry}
use ocserv.SecMod.Accounting.{IsValid, IsPaired}
use ocserv.SecMod.Created.{Created, new_client-Created}
use ocserv.SecMod.Grant.{IsOwn}

-- sec_mod_instance_index_get reads back any 16-bit index that sec_mod_instance_index_put has
-- written, and the identifier keeps its length of 32 bytes.
pub put-get :
    (n : ℕ) (b : Bytes)
    → n < 65536
    → length b ≡ sid_size
    → (instance_index_get (instance_index_put n b) ≡ n)
      × (length (instance_index_put n b) ≡ sid_size)
unfolding instance_index_get instance_index_put
put-get n [] small sized = absurd (omega arith)
put-get n (x ∷ []) small sized = absurd (omega arith)
put-get n (x ∷ y ∷ b) small sized = (omega arith, sized)

-- gnutls_rnd fills the whole buffer, where it answers.
abbrev pub IsFull : (ℕ → Option Bytes) → Type 0
IsFull rnd = (n : ℕ) (b : Bytes) → rnd n ≡ some b → length b ≡ sid_size

module _ (ht : Htable Client) (s : Sec) (small : s.instance_index < 65536) where
  draw_sid-IsOwn :
      (rnd : ℕ → Option Bytes) (left n : ℕ) (sid : Bytes)
      → IsFull rnd
      → draw_sid ht rnd s left n ≡ some sid
      → IsOwn s sid
  unfolding draw_sid
  draw_sid-IsOwn rnd zero n sid full h = cc
  draw_sid-IsOwn rnd (suc left) n sid full h = elim (Option-cases (rnd n)) [
    | inl failed_draw ↦ absurd (ground arith)
    | inr (b, drawn) ↦
        let k = instance_index_put s.instance_index b in
        let own = put-get s.instance_index b small (full n b drawn) in
        elim (Option-cases (ht.get (same_sid k) s.client_db)) [
          | inl free ↦ let same : k ≡ sid = ground arith in rw (← same) (own.1, own.0)
          | inr (e, taken) ↦ draw_sid-IsOwn rnd left (n + 1) sid full (ground arith)
        ]
  ]

  -- In a valid state, the entry that new_client_entry makes has an identifier that no session
  -- had, and that passes the tests of size and of instance of the messages about sessions; the
  -- sessions under all other identifiers stay as they were; and the new one is idle and closed.
  -- The index of the instance is to fit 16 bits, and gnutls_rnd is to fill its buffer.
  pub new_client-IsOwn :
      (safe_id_of : Bytes → Bytes) (rnd : ℕ → Option Bytes) (vhost : Vhost) (ip : Bytes)
      (pid now : ℕ) (e : Client) (s' : Sec)
      → IsFull rnd
      → IsValid s
      → IsPaired vhost
      → new_client_entry ht safe_id_of rnd s vhost ip pid now ≡ some (e, s')
      → IsOwn s e.sid × Created s vhost pid e s'
  unfolding new_client_entry add_client fresh_client
  new_client-IsOwn safe_id_of rnd vhost ip pid now e s' full i pair h = (
    elim (Option-cases (draw_sid ht rnd s 5 0)) [
      | inl failed_draw ↦ absurd (ground arith)
      | inr (sid, drawn) ↦
          let own = draw_sid-IsOwn rnd 5 0 sid full drawn in
          let same : sid ≡ e.sid = ground arith in rw (← same) own
    ],
    new_client-Created ht s i safe_id_of rnd vhost ip pid now e s' pair h,
  )
