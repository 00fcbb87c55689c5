-- ===== src/PlainAuth/Tests.antt =====
-- The password file at concrete inputs.
use ocserv.Prelude.{
  ◌≡◌, refl, inr, true, false, some, List, [], ◌∷◌, ◌++◌, Bytes, take, arith, bytes_eq,
}
use ocserv.SecMod.Auth.{done}
use ocserv.PlainAuth.Groups.{
  group_names, split_commas, trim_end, before_trimmed, last_name, before_last_space, trim_first,
  trim_start, onto_first,
}
use ocserv.PlainAuth.File.{
  Plain, Config, default, read_lines, read_line, strsep, drop_last, take_groups, take_pass,
  take_salt, read_auth_pass, plain_auth_init, first_prompt,
}
use ocserv.PlainAuth.Pass.{plain_auth_pass, differs, salt_of, wrong_pass, right_pass}
use ocserv.PlainAuth.Login.{Attempt, Crypt, attempts, login, view}
use ocserv.PlainAuth.Refused.{none_opens, attempts-done}
use ocserv.PlainAuth.Secure.{state_of, entitled, login-entitled, view_unlisted, state_of-Listed}
use ocserv.PlainAuth.Entry.{IsEntry, Listed}

-- The first three bytes of the salt and the password.
abbrev hash : Crypt
hash pass salt = some (take 3 salt ++ pass)

-- "al:g1,g2:$5$pw", "bob:x:$5$no"
abbrev al_line : Bytes
al_line = 97 ∷ 108 ∷ 58 ∷ 103 ∷ 49 ∷ 44 ∷ 103 ∷ 50 ∷ 58 ∷ 36 ∷ 53 ∷ 36 ∷ 112 ∷ 119 ∷ 10 ∷ []

abbrev bob_line : Bytes
bob_line = 98 ∷ 111 ∷ 98 ∷ 58 ∷ 120 ∷ 58 ∷ 36 ∷ 53 ∷ 36 ∷ 110 ∷ 111 ∷ 10 ∷ []

abbrev lines : List Bytes
lines = al_line ∷ bob_line ∷ []

abbrev with_otp : Config
with_otp = record { passwd = true; file = some lines; otp_file = true }

abbrev without_otp : Config
without_otp = record { passwd = true; file = some lines; otp_file = false }

abbrev al : Bytes
al = 97 ∷ 108 ∷ []

abbrev eve : Bytes
eve = 101 ∷ 118 ∷ 101 ∷ []

-- "pw"; "no"; and "12", which is good as a one-time password
abbrev pw : Attempt
pw = (112 ∷ 119 ∷ [], false)

abbrev bad : Attempt
bad = (110 ∷ 111 ∷ [], false)

abbrev code : Attempt
code = (49 ∷ 50 ∷ [], true)

abbrev tries : List Attempt
tries = bad ∷ pw ∷ code ∷ []

-- What is read for the first of them.
abbrev al_state : Plain
al_state = record {
  username = al;
  cpass = 36 ∷ 53 ∷ 36 ∷ 112 ∷ 119 ∷ [];
  dummy_salt = [];
  groupnames = (103 ∷ 49 ∷ []) ∷ (103 ∷ 50 ∷ []) ∷ [];
  pass_msg = default;
  retries = 0;
  unknown_user = false;
}

read_al : state_of al lines ≡ al_state
unfolding read_lines read_line bytes_eq strsep drop_last take_groups take_pass group_names
    split_commas trim_end before_trimmed last_name before_last_space trim_first trim_start
    onto_first
read_al = refl

login-entitled_example :
    (key : Bytes) × Listed (IsEntry al key) lines × (entitled hash key true tries ≡ true)
unfolding login attempts plain_auth_init read_auth_pass first_prompt plain_auth_pass differs salt_of
    wrong_pass right_pass read_lines read_line bytes_eq strsep drop_last take_groups take_pass
login-entitled_example = login-entitled hash with_otp lines refl refl al tries refl

unknown_eve : ¬ Listed (λ line. (key : Bytes) × IsEntry eve key line) lines
unfolding read_lines read_line bytes_eq strsep drop_last take_groups take_pass take_salt
unknown_eve x = let known : true ≡ false = (state_of-Listed eve lines).1 x in cc

view_unlisted_example :
    view hash with_otp al (bad ∷ bad ∷ bad ∷ []) ≡ view hash with_otp eve (bad ∷ bad ∷ bad ∷ [])
unfolding read_lines read_line bytes_eq strsep drop_last take_groups take_pass none_opens
view_unlisted_example =
    view_unlisted hash with_otp lines refl refl al eve (bad ∷ bad ∷ bad ∷ []) refl refl
      (inr (refl, refl)) unknown_eve

attempts-done_example : attempts hash with_otp al_state tries ≡ done
unfolding none_opens bytes_eq
attempts-done_example =
    attempts-done hash with_otp al_state (bad ∷ []) [] pw code refl refl refl (omega arith) refl
      (inr (refl, λ e. cc))
