-- ===== src/SecMod/Grant.antt =====
-- Which sessions are opened, and what an opening leaves (src/sec-mod-auth.c).
use mathlib.Core.Option
use ocserv.Prelude.{
  ◌≡◌, refl, sym, ◌∙◌, ap, inl, inr, true, false, not, ◌&&◌, Option, none, some, List, ◌∷◌, arith,
  Bytes, Bool-cases, if◌then◌else◌, length, ◌==◌, bytes_eq_refl, bytes_eq_sound,
}
use ocserv.Table.{Htable, find, find_sound, find-modify_self}
use ocserv.SecMod.Entry.{
  Client, Sec, same_sid, status_eq, failed, completed, sid_size, instance_index_get, is_expired,
  Status, acct_open, acct_refused, session_ok, Event,
}
use ocserv.SecMod.Db.{store, find_client_entry}
use ocserv.SecMod.Auth.{Code, ok, emit}
use ocserv.SecMod.Session.{
  OpenAnswers, refuse_session, grant_session, open_session, open_found,
  handle_secm_session_open_cmd,
}
use ocserv.SecMod.Accounting.{IsValid}
use ocserv.SecMod.Handlers.{granted}

-- A write is read back under the same identifier.
pub find-store :
    (e e₀ : Client) (s : Sec) (sid : Bytes)
    → e.sid ≡ sid
    → find (same_sid sid) s.client_db ≡ some e₀
    → find (same_sid sid) (store e s).client_db ≡ some e
find-store e e₀ s sid same found =
    let there : find (same_sid e.sid) s.client_db ≡ some e₀ =
      ap (λ k. find (same_sid k) s.client_db) same ∙ found in
    let back : find (same_sid e.sid) (store e s).client_db ≡ some e =
      find-modify_self (same_sid e.sid) (λ _. e) s.client_db (λ _ _. bytes_eq_refl e.sid)
      ∙ ap (Option.map (λ _. e)) there in
    ap (λ k. find (same_sid k) (store e s).client_db) (sym same) ∙ back

-- The entry that a worker uses once more.
abbrev pub opened : OpenAnswers → Client → Client
opened a e = granted a (record e { session_is_open = true })

-- The session that an opening hands out: it was authenticated and alive, and is counted once more.
pub record Opening (a : OpenAnswers) (s : Sec) (sid : Bytes) (s' : Sec) : Type 0 where
  pub entry : Client
  pub found : find (same_sid sid) s.client_db ≡ some entry
  pub complete : entry.status ≡ completed
  pub alive : is_expired a.now entry ≡ false
  pub after : find (same_sid sid) s'.client_db ≡ some (opened a entry)

-- The answer is a session.
abbrev Granted : Bytes → List Event → Code × Sec → Type 0
Granted k vs r = (r.0 ≡ ok) × (r.1.events ≡ session_ok k ∷ vs)

refuse-Granted :
    (a : OpenAnswers) (s : Sec) (k : Bytes) (vs : List Event)
    → Granted k vs (refuse_session a s)
    → ⊥
unfolding refuse_session
refuse-Granted a s k vs g = ground arith

status_eq_sound : (a b : Status) → status_eq a b ≡ true → a ≡ b
unfolding status_eq
status_eq_sound a b h = ground arith

module _ (a : OpenAnswers) (k : Bytes) (vs : List Event) where
  grant-Granted :
      (e : Client) (s : Sec)
      → Granted k vs (grant_session a e s)
      → ((grant_session a e s).1.client_db ≡ (store (granted a e) s).client_db) × (k ≡ e.sid)
  unfolding grant_session refuse_session
  grant-Granted e s g = ground arith

  open-Granted :
      (e : Client) (s : Sec)
      → Granted k vs (open_session a e s)
      → ((open_session a e s).1.client_db ≡ (store (opened a e) s).client_db) × (k ≡ e.sid)
  unfolding open_session
  open-Granted e s g = elim (Bool-cases (e.vhost.acct_open && not e.session_is_open)) [
    | inl fresh ↦ elim (Bool-cases a.accepted) [
      | inl taken ↦
          ground
            (arith, grant-Granted (record e { session_is_open = true }) (emit (acct_open e.sid) s))
      | inr refused ↦ absurd (
          ground (
            arith,
            refuse-Granted a (store (record e { status = failed }) (emit (acct_refused e.sid) s)) k
                vs,
          ))
    ]
    | inr old ↦ ground (arith, grant-Granted (record e { session_is_open = true }) s)
  ]

  found-Granted :
      (s : Sec) (sid : Bytes) (o : Option Client)
      → ((e : Client) → o ≡ some e → find (same_sid sid) s.client_db ≡ some e)
      → Granted k vs (open_found a s o)
      → Opening a s sid (open_found a s o).1 × (k ≡ sid)
  unfolding open_found
  found-Granted s sid none there g = absurd (refuse-Granted a s k vs g)
  found-Granted s sid (some e) there g =
      let found = there e refl in
      let mine : e.sid ≡ sid =
        bytes_eq_sound e.sid sid (find_sound (same_sid sid) s.client_db e found) in
      elim (Bool-cases (status_eq e.status completed)) [
        | inr early ↦ absurd (ground (arith, refuse-Granted a s k vs))
        | inl complete ↦ elim (Bool-cases (is_expired a.now e)) [
          | inl late ↦
              absurd
                (ground (arith, refuse-Granted a (store (record e { status = failed }) s) k vs))
          | inr alive ↦
              let outcome : (open_found a s (some e)) ≡ open_session a e s = ground arith in
              let done = open-Granted e s (ground arith) in
              let back = find-store (opened a e) e s sid mine found in
              (
                record {
                  entry = e;
                  found = found;
                  complete = status_eq_sound e.status completed complete;
                  alive = alive;
                  after = ground arith;
                },
                ground arith,
              )
        ]
      ]

-- Every condition on the environment under which a session can be opened.
abbrev pub IsWilling : OpenAnswers → Type 0
IsWilling a =
    (a.accepted ≡ true) × (a.seed ≡ true) × (a.memory ≡ true) × (a.config ≡ true) × (a.sent ≡ true)

-- An identifier that this security module may have given out.
abbrev pub IsOwn : Sec → Bytes → Type 0
IsOwn s sid = (length sid ≡ sid_size) × (instance_index_get sid ≡ s.instance_index)

module _ (ht : Htable Client) (s : Sec) (i : IsValid s) (a : OpenAnswers) (sid : Bytes) where
  by_sid-found :
      (e : Client) → find_client_entry ht s sid ≡ some e → find (same_sid sid) s.client_db ≡ some e
  by_sid-found e got = sym (ht.get-find (same_sid sid) s.client_db (i.once sid)) ∙ got

  -- In a valid state, handle_secm_session_open_cmd returns 0 and sends a session only for the
  -- identifier asked for, which has the right size and the index of this instance, and whose
  -- entry was completely authenticated and had not expired; the entry then counts one user more,
  -- has no reason of disconnection and a new expiration.
  pub open-Opening :
      (k : Bytes) (vs : List Event)
      → let r = handle_secm_session_open_cmd ht a s sid in
        r.0 ≡ ok → r.1.events ≡ session_ok k ∷ vs → (k ≡ sid) × IsOwn s sid × Opening a s sid r.1
  unfolding handle_secm_session_open_cmd
  open-Opening k vs code sent = elim (Bool-cases (length sid == sid_size)) [
    | inr wrong ↦ absurd (ground (arith, refuse-Granted a s k vs))
    | inl sized ↦ elim (Bool-cases (instance_index_get sid == s.instance_index)) [
      | inr foreign ↦ absurd (ground (arith, refuse-Granted a s k vs))
      | inl own ↦
          let outcome : handle_secm_session_open_cmd ht a s sid
              ≡ open_found a s (find_client_entry ht s sid) =
            ground arith in
          let r =
            found-Granted a k vs s sid (find_client_entry ht s sid) by_sid-found
              (ap (λ x. x.0) (sym outcome) ∙ code, ap (λ x. x.1.events) (sym outcome) ∙ sent) in
          (r.1, (ground arith, ground arith), rw outcome r.0)
    ]
  ]

  -- Conversely, a completely authenticated session that has not expired is opened if the
  -- identifier is one of this instance, the accounting module accepts, and no allocation,
  -- random seed, reading of configuration or sending fails.
  pub open-grants :
      (e : Client)
      → IsOwn s sid
      → find (same_sid sid) s.client_db ≡ some e
      → e.status ≡ completed
      → is_expired a.now e ≡ false
      → IsWilling a
      → let r = handle_secm_session_open_cmd ht a s sid in
        (r.0 ≡ ok)
        × (r.1.events
            ≡ session_ok sid
              ∷ (if e.vhost.acct_open && not e.session_is_open
                  then acct_open sid ∷ s.events
                  else s.events))
        × (find (same_sid sid) r.1.client_db ≡ some (opened a e))
  unfolding handle_secm_session_open_cmd open_found open_session grant_session status_eq
  open-grants e own found complete alive willing =
      let got : find_client_entry ht s sid ≡ some e =
        ht.get-find (same_sid sid) s.client_db (i.once sid) ∙ found in
      let mine : e.sid ≡ sid =
        bytes_eq_sound e.sid sid (find_sound (same_sid sid) s.client_db e found) in
      let back = find-store (opened a e) e s sid mine found in
      let back' = find-store (opened a e) e (emit (acct_open e.sid) s) sid mine found in
      ground arith
