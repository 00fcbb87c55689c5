-- ===== src/SecMod/Auth.antt =====
-- The result of an authentication step, and what is sent for it (src/sec-mod-auth.c).
use ocserv.Prelude.{
  ℕ, ◌+◌, ◌-◌, ◌*◌, ◌/◌, ◌%◌, ◌^◌, Bool, true, false, not, ◌&&◌, Option, none, some, ◌∷◌, Bytes,
  ltb, ◌==◌, if◌then◌else◌,
}
use ocserv.SecMod.Entry.{
  Client, Module, Sec, Event, auth_ok, auth_failed, auth_msg, ban_ip, failed, init, completed,
  status_eq,
}
use ocserv.SecMod.Checks.{GroupAnswer, check_group}

-- The int that an authentication function returns: 0, ERR_AUTH_CONTINUE, another negative number,
-- or a positive one.
pub data Result : Type 0 where
  done again negative positive : Result

-- Whether a handler returns 0 or a negative number.
pub data Code : Type 0 where
  ok err : Code

-- What the module, the socket and the clock answer to one call of handle_sec_auth_res.
pub record Answers : Type 0 where
  -- auth_msg: `none` for a negative result, otherwise the text and the counter
  pub msg : Option (Option Bytes × ℕ)
  pub group : GroupAnswer
  -- auth_user: the buffer of the user's name as the module leaves it
  pub user : Bytes → Bytes
  -- send_msg does not fail
  pub sent : Bool
  pub now : ℕ

abbrev pub emit : Event → Sec → Sec
emit v s = record s { events = v ∷ s.events }

-- sec_mod_add_score_to_ip; a failure to send is only logged.
unfoldable pub add_score_to_ip : Client → Bytes → ℕ → Sec → Sec
add_score_to_ip e ip points s = if e.vhost.max_ban_score == 0 then s else emit (ban_ip ip points) s

-- update_auth_time_stats, with uint32_t fields; `secs` is not negative.
unfoldable pub update_auth_time_stats : ℕ → Sec → Sec
update_auth_time_stats secs s =
    let total = (s.total_authentications + 1) % 2 ^ 32 in
    if total == 0
    then record s { total_authentications = 0; avg_auth_time = 0; max_auth_time = 0 }
    else record s {
      total_authentications = total;
      max_auth_time = if ltb s.max_auth_time secs then secs % 2 ^ 32 else s.max_auth_time;
      avg_auth_time = (s.avg_auth_time * (total - 1) + secs) / total % 2 ^ 32;
    }

-- send_sec_auth_reply with AUTH__REP__OK: whether it is sent, and the entry after it.
unfoldable pub send_auth_ok : Answers → Client → Sec → Client × Sec
send_auth_ok a e s =
    let timed = if ltb a.now e.created then s else update_auth_time_stats (a.now - e.created) s in
    (
      if a.sent then record e { msg_str = none } else record e { status = failed },
      emit (auth_ok e.sid e.username) timed,
    )

-- send_sec_auth_reply with AUTH__REP__FAILED
unfoldable pub send_auth_failed : Answers → Client → Sec → Client × Sec
send_auth_failed a e s = (
  if a.sent then record e { msg_str = none } else e,
  emit auth_failed (record s { auth_failures = s.auth_failures + 1 }),
)

-- e->module && e->module->allows_retries
abbrev pub retries : Option Module → Bool
retries none = false
retries (some m) = m.allows_retries

-- The branch of a result that asks for more.
unfoldable pub res_again : Answers → Bool → Client → Sec → Code × Client × Sec
res_again a same_stage e s =
    let scored =
      if not (status_eq e.status init) && retries e.amod && same_stage
      then add_score_to_ip e e.remote_ip e.vhost.ban_points_wrong_password s
      else s in
    let e' : Client = record e { msg_str = none } in
    (
      if a.sent then ok else err,
      (if a.sent then e' else record e' { status = failed }),
      emit (auth_msg e.sid) scored,
    )

-- The branch of success.
unfoldable pub res_done : Answers → Client → Sec → Code × Client × Sec
res_done a e s =
    let (passed, e₁) = check_group a.group e in
    if passed
    then (let name : Bytes = elim e₁.amod [ none ↦ e₁.username | some m ↦ a.user e₁.username ] in
        let (e₂, s') = send_auth_ok a (record e₁ { status = completed; username = name }) s in
        (if a.sent then ok else err, e₂, s'))
    else (err, record e₁ { status = failed }, s)

-- The branch of failure.
unfoldable pub res_failed : Answers → Client → Sec → Code × Client × Sec
res_failed a e s =
    let e₁ : Client = record e { status = failed } in
    let scored = add_score_to_ip e₁ e₁.remote_ip e₁.vhost.ban_points_wrong_password s in
    let (e₂, s') = send_auth_failed a e₁ scored in (err, e₂, s')

abbrev pub wants_msg : Result → Bool
wants_msg done = true
wants_msg again = true
wants_msg _ = false

-- The three branches, on the result.
unfoldable pub branch : Answers → Result → Bool → Client → Sec → Code × Client × Sec
branch a done stage e s =
    if not (status_eq e.status failed) then res_done a e s else res_failed a e s
branch a again stage e s = res_again a stage e s
branch a negative stage e s = res_failed a e s
branch a positive stage e s = res_failed a e s

-- The call of auth_msg, which sets the message and the counter of the password.
unfoldable pub after_msg :
    Answers → Result → Option (Option Bytes × ℕ) → Client → Sec → Code × Client × Sec
after_msg a result none e s = (err, record e { status = failed }, s)
after_msg a result (some (text, counter)) e s =
    branch a result (not (ltb e.passwd_counter counter))
      (record e { msg_str = text; passwd_counter = counter }) s

unfoldable pub with_module : Answers → Result → Option Module → Client → Sec → Code × Client × Sec
with_module a result none e s = branch a result true e s
with_module a result (some m) e s =
    if wants_msg result then after_msg a result a.msg e s else branch a result true e s

-- handle_sec_auth_res: the code, the entry and the module after it.
unfoldable pub handle_sec_auth_res : Answers → Result → Client → Sec → Code × Client × Sec
handle_sec_auth_res a result e s = with_module a result e.amod e s
