-- ===== src/SecMod/Complete.antt =====
-- When an authentication is complete (src/sec-mod-auth.c).
use ocserv.Prelude.{
  ℕ, ◌≡◌, refl, sym, ◌∙◌, ap, inl, inr, Bool, true, false, not, ◌&&◌, ◌||◌, Option, none, some,
  arith, Bytes, Bool-cases, if_both,
}
use ocserv.SecMod.Entry.{Module, Client, Sec, failed, completed, status_eq}
use ocserv.SecMod.Checks.{
  Check, ◌>>=◌, GroupAnswer, module_group, certificate_group, check_cert_user_group_status,
  check_group, uses_certificate, user_missing,
}
use ocserv.SecMod.Auth.{
  Answers, Result, done, again, negative, positive, Code, send_auth_ok, send_auth_failed, res_again,
  res_done, res_failed, branch, handle_sec_auth_res, after_msg, with_module, wants_msg,
}

-- The certificate of the client, and what is asked of it, are as before.
record Cert (e e' : Client) : Type 0 where
  kind : e'.auth_type ≡ e.auth_type
  tls : e'.tls_auth_ok ≡ e.tls_auth_ok
  host : e'.vhost ≡ e.vhost
  user : e'.cert_user_name ≡ e.cert_user_name
  groups : e'.cert_group_names ≡ e.cert_group_names

-- Where a method uses the certificate, TLS has accepted it, and it names a user if one is wanted.
abbrev pub certified : Client → Bool
certified e = not (uses_certificate e) || (e.tls_auth_ok && not (user_missing e))

check_cert-certified :
    (e : Client)
    → (check_cert_user_group_status e).0 ≡ true
    → (certified e ≡ true) × (certified (check_cert_user_group_status e).1 ≡ true)
unfolding check_cert_user_group_status
check_cert-certified e pass = (ground arith, ground arith)

bind_pass : (c : Check) (f : Client → Check) → (c >>= f).0 ≡ true → (c >>= f) ≡ f c.1
bind_pass (true, e) f h = refl
bind_pass (false, e) f h = cc

check_group-certified :
    (answer : GroupAnswer) (e : Client)
    → (check_group answer e).0 ≡ true
    → certified (check_group answer e).1 ≡ true
unfolding check_group
check_group-certified answer e pass =
    let e₁ = (module_group answer e).1 in
    let rest = λ (x : Client). certificate_group x >>= check_cert_user_group_status in
    let first : check_group answer e ≡ rest e₁ = bind_pass (module_group answer e) rest pass in
    let pass₁ : (rest e₁).0 ≡ true = ap (λ c. c.0) (sym first) ∙ pass in
    let second = bind_pass (certificate_group e₁) check_cert_user_group_status pass₁ in
    let pass₂ = ap (λ c. c.0) (sym second) ∙ pass₁ in
    ap (λ c. certified c.1) (first ∙ second)
    ∙ (check_cert-certified (certificate_group e₁).1 pass₂).1

-- How a step of an authentication ends in a complete one.
record Completion (r : Result) (e e' : Client) (sent : Bool) : Type 0 where
  success : r ≡ done
  healthy : status_eq e.status failed ≡ false
  delivered : sent ≡ true
  accepted : certified e' ≡ true

abbrev IsNew : Client → Type 0
IsNew e = status_eq e.status completed ≡ false

module _ (a : Answers) where
  abbrev Completes : Result → Client → Code × Client × Sec → Type 0
  Completes r e x = status_eq x.1.status completed ≡ true → Completion r e x.1 a.sent

  res_failed-Completes : (r : Result) (e₀ e : Client) (s : Sec) → Completes r e₀ (res_failed a e s)
  unfolding res_failed send_auth_failed status_eq
  res_failed-Completes r e₀ e s h = absurd (ground arith)

  res_again-Completes :
      (r : Result) (e₀ e : Client) (stage : Bool) (s : Sec)
      → IsNew e
      → Completes r e₀ (res_again a stage e s)
  unfolding res_again status_eq
  res_again-Completes r e₀ e stage s new h = absurd (ground arith)

  res_done-Completes :
      (e : Client) (s : Sec) → status_eq e.status failed ≡ false → Completes done e (res_done a e s)
  unfolding res_done send_auth_ok status_eq
  res_done-Completes e s healthy h = elim (Bool-cases (check_group a.group e).0) [
    | inl pass ↦
        let ok_here = check_group-certified a.group e pass in
        record {
          success = refl;
          healthy = healthy;
          delivered = ground arith;
          accepted = ground arith;
        }
    | inr stop ↦ absurd (ground arith)
  ]

  branch-Completes :
      (r : Result) (stage : Bool) (e : Client) (s : Sec)
      → IsNew e
      → Completes r e (branch a r stage e s)
  unfolding branch
  branch-Completes done stage e s new = elim (Bool-cases (status_eq e.status failed)) [
    | inl bad ↦ rw (bad, branch) (res_failed-Completes done e e s)
    | inr healthy ↦ rw (healthy, branch) (res_done-Completes e s healthy)
  ]
  branch-Completes again stage e s new = res_again-Completes again e e stage s new
  branch-Completes negative stage e s new = res_failed-Completes negative e e s
  branch-Completes positive stage e s new = res_failed-Completes positive e e s

  after_msg-Completes :
      (r : Result) (o : Option (Option Bytes × ℕ)) (e : Client) (s : Sec)
      → IsNew e
      → Completes r e (after_msg a r o e s)
  unfolding after_msg status_eq
  after_msg-Completes r none e s new h = absurd (ground arith)
  after_msg-Completes r (some (text, counter)) e s new h =
      let c =
        branch-Completes r _ (record e { msg_str = text; passwd_counter = counter }) s new h in
      record {
        success = c.success;
        healthy = c.healthy;
        delivered = c.delivered;
        accepted = c.accepted;
      }

  module-Completes :
      (r : Result) (o : Option Module) (e : Client) (s : Sec)
      → IsNew e
      → Completes r e (with_module a r o e s)
  unfolding with_module
  module-Completes r none e s new = branch-Completes r true e s new
  module-Completes r (some m) e s new =
      if_both (Completes r e) (wants_msg r) _ _ (after_msg-Completes r a.msg e s new)
        (branch-Completes r true e s new)

-- If handle_sec_auth_res makes an authentication complete that was not, then the step of the
-- module succeeded, the authentication had not failed before, the reply was sent, and where the
-- method uses a certificate, TLS has accepted it and it names a user if the configuration wants one.
pub handle_res-completed :
    (a : Answers) (r : Result) (e : Client) (s : Sec)
    → status_eq e.status completed ≡ false
    → let e' = (handle_sec_auth_res a r e s).1 in
      status_eq e'.status completed ≡ true
      → (r ≡ done) × (status_eq e.status failed ≡ false) × (a.sent ≡ true) × (certified e' ≡ true)
unfolding handle_sec_auth_res
handle_res-completed a r e s new h =
    let c = module-Completes a r e.amod e s new h in (c.success, c.healthy, c.delivered, c.accepted)
