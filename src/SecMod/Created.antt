-- ===== src/SecMod/Created.antt =====
-- New sessions (new_client_entry, src/sec-mod-db.c; handle_sec_auth_init, src/sec-mod-auth.c).
use mathlib.Core.Path.{subst₂}
use ocserv.Prelude.{
  ℕ, zero, suc, ◌+◌, ◌≤◌, ◌≡◌, refl, sym, ◌∙◌, inl, inr, Bool, false, not, ◌&&◌, Option, none, some,
  List, [], ◌∷◌, arith, Bytes, Bool-cases, Option-cases, if_both, ltb, ◌==◌, bytes_eq_refl,
}
use ocserv.Table.{Htable, find, count, find-perm, count-pos_of_find}
use ocserv.SecMod.Entry.{
  Client, Module, Vhost, Sec, same_sid, status_eq, failed, instance_index_put,
}
use ocserv.SecMod.Db.{
  fresh_client, draw_sid, add_client, new_client_entry, find_client_entry_by_pid, del_client_entry,
}
use ocserv.SecMod.Auth.{Answers, err, Result, done, again, negative, positive}
use ocserv.SecMod.Init.{
  InitReq, InitAnswers, set_module, fill_client, call_init, start_module, begin, start_client,
  replace_old, handle_sec_auth_init, find_method,
}
use ocserv.SecMod.Accounting.{IsValid, IsPaired, add-IsValid, delete-IsValid}
use ocserv.SecMod.Kept.{Kept, Kept-refl, Kept-trans, add_score-IsValid}
use ocserv.SecMod.Handlers.{finish-IsValid, IsOk}

-- What new_client_entry has made, if it has made something.
pub record Created (s : Sec) (vhost : Vhost) (pid : ℕ) (e : Client) (s' : Sec) : Type 0 where
  -- the identifier is new
  pub unused : find (same_sid e.sid) s.client_db ≡ none
  pub stored : find (same_sid e.sid) s'.client_db ≡ some e
  -- the other sessions are as they were
  pub others :
      (k : Bytes)
      → same_sid k e ≡ false
      → find (same_sid k) s'.client_db ≡ find (same_sid k) s.client_db
  pub valid : IsValid s'
  pub host : e.vhost ≡ vhost
  pub worker : e.id ≡ pid
  pub idle : (e.session_is_open ≡ false) × (e.in_use ≡ 0)

module _ (ht : Htable Client) (s : Sec) (i : IsValid s) where
  draw_sid-unused :
      (rnd : ℕ → Option Bytes) (left n : ℕ) (sid : Bytes)
      → draw_sid ht rnd s left n ≡ some sid
      → find (same_sid sid) s.client_db ≡ none
  unfolding draw_sid
  draw_sid-unused rnd zero n sid h = cc
  draw_sid-unused rnd (suc left) n sid h = elim (Option-cases (rnd n)) [
    | inl failed_draw ↦ absurd (ground arith)
    | inr (b, drawn) ↦
        let k = instance_index_put s.instance_index b in
        elim (Option-cases (ht.get (same_sid k) s.client_db)) [
          | inl free ↦
              let same : k ≡ sid = ground arith in
              rw (← same) (sym (ht.get-find (same_sid k) s.client_db (i.once k)) ∙ free)
          | inr (e, taken) ↦ draw_sid-unused rnd left (n + 1) sid (ground arith)
        ]
  ]

  add_client-Created :
      (vhost : Vhost) (ip : Bytes) (pid : ℕ) (sid safe_id : Bytes) (now : ℕ) (e : Client) (s' : Sec)
      → IsPaired vhost
      → find (same_sid sid) s.client_db ≡ none
      → add_client ht s (fresh_client vhost ip pid sid safe_id now) ≡ some (e, s')
      → Created s vhost pid e s'
  unfolding add_client fresh_client find
  add_client-Created vhost ip pid sid safe_id now e s' pair absent h =
      let n = fresh_client vhost ip pid sid safe_id now in
      elim (Option-cases (ht.add n s.client_db)) [
        | inl full ↦ absurd (ground arith)
        | inr (t, added) ↦
            let v = add-IsValid ht n s t added absent refl pair i in
            let perm = ht.add-perm n s.client_db t added in
            let made : Created s vhost pid n (record s { client_db = t }) = record {
              unused = absent;
              stored = find-perm (same_sid sid) perm (v.once sid) ∙ rw (bytes_eq_refl sid);
              others = λ k miss. find-perm (same_sid k) perm (v.once k) ∙ rw miss;
              valid = v;
              host = refl;
              worker = refl;
              idle = (refl, refl);
            } in
            let same_e : n ≡ e = ground arith in
            let same_s : record s { client_db = t } ≡ s' = ground arith in
            subst₂ (λ x y. Created s vhost pid x y) same_e same_s made
      ]

  pub new_client-Created :
      (safe_id_of : Bytes → Bytes) (rnd : ℕ → Option Bytes) (vhost : Vhost) (ip : Bytes)
      (pid now : ℕ) (e : Client) (s' : Sec)
      → IsPaired vhost
      → new_client_entry ht safe_id_of rnd s vhost ip pid now ≡ some (e, s')
      → Created s vhost pid e s'
  unfolding new_client_entry
  new_client-Created safe_id_of rnd vhost ip pid now e s' pair h =
      elim (Option-cases (draw_sid ht rnd s 5 0)) [
        | inl failed_draw ↦ absurd (ground arith)
        | inr (sid, drawn) ↦
            add_client-Created vhost ip pid sid (safe_id_of sid) now e s' pair
              (draw_sid-unused rnd 5 0 sid drawn) (rw (drawn, new_client_entry) at h)
      ]

set_module-Kept :
    (vhost : Vhost) (e : Client) (asked : ℕ) (e' : Client)
    → set_module vhost e asked ≡ some e'
    → Kept e e'
unfolding set_module
set_module-Kept vhost e asked e' h = elim (Option-cases (find_method vhost.methods asked)) [
  | inl nothing ↦ absurd (ground arith)
  | inr (m, got) ↦ ground arith
]

fill_client-Kept : (req : InitReq) (e : Client) → Kept e (fill_client req e)
unfolding fill_client
fill_client-Kept req e = record { sid = refl; is_open = refl; host = refl; uses = refl }

call_init-Kept :
    (req : InitReq) (answer : Result) (e : Client) (m : Option Module)
    → Kept e (call_init req answer e m).1
unfolding call_init
call_init-Kept req answer e none = fill_client-Kept req e
call_init-Kept req done e (some m) = fill_client-Kept req e
call_init-Kept req again e (some m) = fill_client-Kept req e
call_init-Kept req negative e (some m) = Kept-refl e
call_init-Kept req positive e (some m) = fill_client-Kept req e

start_module-Kept :
    (req : InitReq) (answer : Result) (e : Client) (asked : ℕ)
    → Kept e (start_module req answer e (set_module req.vhost e asked)).1
unfolding start_module
start_module-Kept req answer e asked = elim (Option-cases (set_module req.vhost e asked)) [
  | inl nothing ↦ rw (nothing, start_module) (Kept-refl e)
  | inr (e', got) ↦
      rw (got, start_module)
        (Kept-trans (set_module-Kept req.vhost e asked e' got)
          (call_init-Kept req answer e' e'.amod))
]

-- The first entry for which a test holds is also the one found under its identifier.
pub found_self :
    (p : Client → Bool) (t : List Client) (e : Client)
    → ((k : Bytes) → count (same_sid k) t ≤ 1)
    → find p t ≡ some e
    → find (same_sid e.sid) t ≡ some e
unfolding find count
found_self p [] e once h = cc
found_self p (x ∷ t) e once h = elim (Bool-cases (p x)) [
  | inl hit ↦ let same : x ≡ e = ground arith in rw (← same, bytes_eq_refl x.sid) refl
  | inr miss ↦
      let later : find p t ≡ some e = ground arith in
      let there = found_self p t e (λ k. omega (arith, once k)) later in
      let some_there = count-pos_of_find (same_sid e.sid) t e there in
      let other : same_sid e.sid x ≡ false = ground (arith, once e.sid) in rw other there
]

pub by_pid-found :
    (s : Sec)
    → IsValid s
    → (pid : ℕ) (old : Client) → find_client_entry_by_pid s pid ≡ some old
    → find (same_sid old.sid) s.client_db ≡ some old
unfolding find_client_entry_by_pid
by_pid-found s i pid old h = found_self (λ e. e.id == pid) s.client_db old i.once (ground arith)

-- The start of a session ends in a valid state.
module _ (answers : Answers) (req : InitReq) (a : InitAnswers) (pid : ℕ)
    (pair : IsPaired req.vhost) where
  begin-IsOk :
      (s : Sec) (e : Client) (s' : Sec)
      → Created s req.vhost pid e s'
      → IsOk (begin answers req a s (some (e, s')))
  unfolding begin
  begin-IsOk s e s' c =
      let k = start_module-Kept req a.auth_init e req.auth_type in
      let e' = (start_module req a.auth_init e (set_module req.vhost e req.auth_type)).1 in
      let there : find (same_sid e'.sid) s'.client_db ≡ some e = rw k.sid c.stored in
      finish-IsValid s' c.valid e answers
        (start_module req a.auth_init e (set_module req.vhost e req.auth_type)).0 e' there k.host
        (rw (k.is_open, k.host) refl)

  module _ (ht : Htable Client) where
    start-IsOk : (s : Sec) → IsValid s → IsOk (start_client ht answers req a pid s)
    unfolding start_client begin
    start-IsOk s i =
        elim (Option-cases
          (new_client_entry ht a.safe_id_of a.rnd s req.vhost req.remote_ip pid a.later)) [
            | inl nothing ↦ rw nothing i
            | inr ((e, s'), made) ↦ rw made (
                begin-IsOk s e s' (
                  new_client-Created ht s i a.safe_id_of a.rnd req.vhost req.remote_ip pid a.later e
                    s' pair made))
          ]

    replace-IsOk :
        (s : Sec) (o : Option Client)
        → ((old : Client) → o ≡ some old → find (same_sid old.sid) s.client_db ≡ some old)
        → IsValid s
        → IsOk (replace_old ht answers req a pid s o)
    unfolding replace_old
    replace-IsOk s none found i = start-IsOk s i
    replace-IsOk s (some old) found i =
        if_both IsOk (status_eq old.status failed && (old.in_use == 0)) _ _
          (start-IsOk (del_client_entry s old)
            (delete-IsValid old old s (found old refl) refl i refl))
          (add_score-IsValid old old.remote_ip old.vhost.ban_points_wrong_password s i)

    pub init-IsOk : (s : Sec) → IsValid s → IsOk (handle_sec_auth_init ht answers req a pid s)
    unfolding handle_sec_auth_init
    init-IsOk s i =
        if_both IsOk (not req.hmac_sized) (err, s) _ i
          (if_both IsOk (not req.has_orig_remote_ip) (err, s) _ i
            (if_both IsOk (not req.hmac_ok) (err, s) _ i
              (if_both IsOk (ltb (req.session_start_time + req.vhost.auth_timeout) a.now) (err, s) _
                i (replace-IsOk s (find_client_entry_by_pid s pid) (by_pid-found s i pid) i))))
