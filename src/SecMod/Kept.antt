-- ===== src/SecMod/Kept.antt =====
-- What an authentication step leaves alone (src/sec-mod-auth.c): the identity of the entry, its
-- virtual host, its accounting, the table and the calls of the accounting module.
use ocserv.Prelude.{
  ℕ, ◌*◌, ◌-◌, ◌≡◌, refl, ◌∙◌, inl, inr, Bool, true, false, not, ◌&&◌, Option, none, some, arith,
  Bytes, Bool-cases, if_both, ltb, ◌==◌,
}
use ocserv.SecMod.Entry.{Module, strlcpy, Client, Sec, ban_ip, failed, init, status_eq}
use ocserv.SecMod.Checks.{
  Check, ◌>>=◌, GroupAnswer, module_group, certificate_group, check_cert_user_group_status,
  check_group, max_username_size, first_group, uses_certificate, user_missing, takes_user,
  other_user, group_missing,
}
use ocserv.SecMod.Auth.{
  Answers, Result, done, again, negative, positive, Code, emit, add_score_to_ip,
  update_auth_time_stats, send_auth_ok, send_auth_failed, res_again, res_done, res_failed, branch,
  handle_sec_auth_res, retries, wants_msg, after_msg, with_module,
}
use ocserv.SecMod.Accounting.{IsValid, emit-IsValid}

-- The same session as before.
pub record Kept (e e' : Client) : Type 0 where
  pub sid : e'.sid ≡ e.sid
  pub is_open : e'.session_is_open ≡ e.session_is_open
  pub host : e'.vhost ≡ e.vhost
  pub uses : e'.in_use ≡ e.in_use

pub Kept-refl : (e : Client) → Kept e e
Kept-refl e = record { sid = refl; is_open = refl; host = refl; uses = refl }

pub Kept-trans : {a b c : Client} → Kept a b → Kept b c → Kept a c
Kept-trans p q = record {
  sid = q.sid ∙ p.sid;
  is_open = q.is_open ∙ p.is_open;
  host = q.host ∙ p.host;
  uses = q.uses ∙ p.uses;
}

module_group-Kept : (answer : GroupAnswer) (e : Client) → Kept e (module_group answer e).1
unfolding module_group
module_group-Kept answer e = ground arith

certificate_group-Kept : (e : Client) → Kept e (certificate_group e).1
unfolding certificate_group
certificate_group-Kept e = ground arith

-- The three ways in which check_cert_user_group_status ends.
check_cert_cases :
    (P : Check → Type 0) (e : Client)
    → P (true, e)
    → P (false, e)
    → P (
      true,
      record e {
        username = strlcpy (2 * max_username_size) e.cert_user_name;
        groupname = first_group e;
      },
    )
    → P (check_cert_user_group_status e)
unfolding check_cert_user_group_status
check_cert_cases P e pass stop named = if_both P (not (uses_certificate e)) _ _ pass (
    if_both P (user_missing e) _ _ stop (
      if_both P (not e.tls_auth_ok) _ _ stop (
        if_both P (takes_user e) _ _ named
          (if_both P (other_user e) _ _ stop (if_both P (group_missing e) _ _ stop pass)))))

check_cert-Kept : (e : Client) → Kept e (check_cert_user_group_status e).1
check_cert-Kept e =
    check_cert_cases (λ c. Kept e c.1) e (Kept-refl e) (Kept-refl e)
      (record { sid = refl; is_open = refl; host = refl; uses = refl })

bind-Kept :
    (e : Client) (c : Check) (f : Client → Check)
    → Kept e c.1
    → ((x : Client) → Kept x (f x).1)
    → Kept e (c >>= f).1
bind-Kept e (true, x) f k h = Kept-trans k (h x)
bind-Kept e (false, x) f k h = k

pub check_group-Kept : (answer : GroupAnswer) (e : Client) → Kept e (check_group answer e).1
unfolding check_group
check_group-Kept answer e =
    bind-Kept e (module_group answer e) _ (module_group-Kept answer e)
      λ x. bind-Kept x (certificate_group x) _ (certificate_group-Kept x) check_cert-Kept

-- A step of the authentication of `e`.
pub record Quiet (e : Client) (s : Sec) (e' : Client) (s' : Sec) : Type 0 where
  pub kept : Kept e e'
  pub table : s'.client_db ≡ s.client_db
  pub valid : IsValid s → IsValid s'

pub add_score-IsValid :
    (e : Client) (ip : Bytes) (points : ℕ) (s : Sec)
    → IsValid s
    → IsValid (add_score_to_ip e ip points s)
unfolding add_score_to_ip
add_score-IsValid e ip points s i =
    if_both IsValid (e.vhost.max_ban_score == 0) s (emit (ban_ip ip points) s) i
      (emit-IsValid (ban_ip ip points) s (λ k. (refl, refl)) i)

add_score-table :
    (e : Client) (ip : Bytes) (points : ℕ) (s : Sec)
    → (add_score_to_ip e ip points s).client_db ≡ s.client_db
unfolding add_score_to_ip
add_score-table e ip points s = ground arith

-- The table and the events are as before.
record Same (s s' : Sec) : Type 0 where
  db : s'.client_db ≡ s.client_db
  trace : s'.events ≡ s.events

Same-IsValid : (s s' : Sec) → Same s s' → IsValid s → IsValid s'
Same-IsValid s s' h i = record {
  once = rw h.db i.once;
  paired = rw h.db i.paired;
  balanced = rw (h.db, h.trace) i.balanced;
}

update_stats-Same : (secs : ℕ) (s : Sec) → Same s (update_auth_time_stats secs s)
unfolding update_auth_time_stats
update_stats-Same secs s =
    if_both (Same s) _ _ _ (record { db = refl; trace = refl }) (record { db = refl; trace = refl })

send_ok-Quiet :
    (a : Answers) (e : Client) (s : Sec) → Quiet e s (send_auth_ok a e s).0 (send_auth_ok a e s).1
unfolding send_auth_ok
send_ok-Quiet a e s =
    let same =
      if_both (Same s) (ltb a.now e.created) _ _ (record { db = refl; trace = refl })
        (update_stats-Same (a.now - e.created) s) in
    record {
      kept =
          if_both (Kept e) a.sent _ _
            (record { sid = refl; is_open = refl; host = refl; uses = refl })
            (record { sid = refl; is_open = refl; host = refl; uses = refl });
      table = same.db;
      valid = λ i. emit-IsValid _ _ (λ k. (refl, refl)) (Same-IsValid s _ same i);
    }

send_failed-Quiet :
    (a : Answers) (e : Client) (s : Sec)
    → Quiet e s (send_auth_failed a e s).0 (send_auth_failed a e s).1
unfolding send_auth_failed
send_failed-Quiet a e s = record {
  kept =
      if_both (Kept e) a.sent _ _ (record { sid = refl; is_open = refl; host = refl; uses = refl })
        (Kept-refl e);
  table = refl;
  valid = λ i.
      emit-IsValid _ _ (λ k. (refl, refl))
        (Same-IsValid s _ (record { db = refl; trace = refl }) i);
}

res_failed-Quiet :
    (a : Answers) (e : Client) (s : Sec) → Quiet e s (res_failed a e s).1 (res_failed a e s).2
unfolding res_failed
res_failed-Quiet a e s =
    let e₁ : Client = record e { status = failed } in
    let scored = add_score_to_ip e₁ e.remote_ip e.vhost.ban_points_wrong_password s in
    let q = send_failed-Quiet a e₁ scored in
    record {
      kept = Kept-trans (record { sid = refl; is_open = refl; host = refl; uses = refl }) q.kept;
      table = q.table ∙ add_score-table e₁ _ _ s;
      valid = λ i. q.valid (add_score-IsValid e₁ _ _ s i);
    }

res_done-Quiet :
    (a : Answers) (e : Client) (s : Sec) → Quiet e s (res_done a e s).1 (res_done a e s).2
unfolding res_done
res_done-Quiet a e s = elim (Bool-cases (check_group a.group e).0) [
  | inl pass ↦
      let k = check_group-Kept a.group e in
      let q = send_ok-Quiet a _ s in
      rw (pass, res_done)
        (record {
          kept =
              Kept-trans
                (Kept-trans k (record { sid = refl; is_open = refl; host = refl; uses = refl }))
                q.kept;
          table = q.table;
          valid = q.valid;
        })
  | inr stop ↦
      let k = check_group-Kept a.group e in
      rw (stop, res_done)
        (record {
          kept = Kept-trans k (record { sid = refl; is_open = refl; host = refl; uses = refl });
          table = refl;
          valid = λ i. i;
        })
]

res_again-Quiet :
    (a : Answers) (stage : Bool) (e : Client) (s : Sec)
    → Quiet e s (res_again a stage e s).1 (res_again a stage e s).2
unfolding res_again
res_again-Quiet a stage e s = record {
  kept =
      if_both (Kept e) a.sent _ _ (record { sid = refl; is_open = refl; host = refl; uses = refl })
        (record { sid = refl; is_open = refl; host = refl; uses = refl });
  table = ground (arith, add_score-table e e.remote_ip e.vhost.ban_points_wrong_password s);
  valid = λ i.
      emit-IsValid _ _ (λ k. (refl, refl))
        (if_both IsValid (not (status_eq e.status init) && retries e.amod && stage) _ _
          (add_score-IsValid e _ _ s i) i);
}

branch-Quiet :
    (a : Answers) (r : Result) (stage : Bool) (e : Client) (s : Sec)
    → Quiet e s (branch a r stage e s).1 (branch a r stage e s).2
unfolding branch
branch-Quiet a done stage e s =
    if_both (λ (r : Code × Client × Sec). Quiet e s r.1 r.2) (not (status_eq e.status failed)) _ _
      (res_done-Quiet a e s) (res_failed-Quiet a e s)
branch-Quiet a again stage e s = res_again-Quiet a stage e s
branch-Quiet a negative stage e s = res_failed-Quiet a e s
branch-Quiet a positive stage e s = res_failed-Quiet a e s

Quiet-after : {e₀ e e' : Client} {s s' : Sec} → Kept e₀ e → Quiet e s e' s' → Quiet e₀ s e' s'
Quiet-after k q = record { kept = Kept-trans k q.kept; table = q.table; valid = q.valid }

after_msg-Quiet :
    (a : Answers) (r : Result) (o : Option (Option Bytes × ℕ)) (e : Client) (s : Sec)
    → Quiet e s (after_msg a r o e s).1 (after_msg a r o e s).2
unfolding after_msg
after_msg-Quiet a r none e s = record {
  kept = record { sid = refl; is_open = refl; host = refl; uses = refl };
  table = refl;
  valid = λ i. i;
}
after_msg-Quiet a r (some (text, counter)) e s =
    Quiet-after (record { sid = refl; is_open = refl; host = refl; uses = refl })
      (branch-Quiet a r _ (record e { msg_str = text; passwd_counter = counter }) s)

with_module-Quiet :
    (a : Answers) (r : Result) (o : Option Module) (e : Client) (s : Sec)
    → Quiet e s (with_module a r o e s).1 (with_module a r o e s).2
unfolding with_module
with_module-Quiet a r none e s = branch-Quiet a r true e s
with_module-Quiet a r (some m) e s =
    if_both (λ (r : Code × Client × Sec). Quiet e s r.1 r.2) (wants_msg r) _ _
      (after_msg-Quiet a r a.msg e s) (branch-Quiet a r true e s)

pub handle_sec_auth_res-Quiet :
    (a : Answers) (r : Result) (e : Client) (s : Sec)
    → Quiet e s (handle_sec_auth_res a r e s).1 (handle_sec_auth_res a r e s).2
unfolding handle_sec_auth_res
handle_sec_auth_res-Quiet a r e s = with_module-Quiet a r e.amod e s
