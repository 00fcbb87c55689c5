-- ===== src/PlainAuth/Pass.antt =====
-- The password and the group of a user (plain_auth_pass, plain_auth_group, src/auth/plain.c).
use ocserv.Prelude.{
  ℕ, ◌+◌, ◌-◌, Bool, true, not, ◌&&◌, ◌||◌, Option, none, some, List, [], ◌∷◌, Bytes, bytes_eq, ltb,
  if◌then◌else◌,
}
use ocserv.SecMod.Entry.{strlcpy}
use ocserv.SecMod.Auth.{Result, done, again, negative}
use ocserv.PlainAuth.Groups.{found_group}
use ocserv.PlainAuth.File.{Plain, Config, Prompt, otp_prompt, failed_prompt, null}

abbrev pub max_password_tries : ℕ
max_password_tries = 3

-- "$5$fakesalt$"
abbrev pub fake_salt : Bytes
fake_salt = 36 ∷ 53 ∷ 36 ∷ 102 ∷ 97 ∷ 107 ∷ 101 ∷ 115 ∷ 97 ∷ 108 ∷ 116 ∷ 36 ∷ []

-- The salt that is handed to crypt.
unfoldable pub salt_of : Plain → Bytes
salt_of p =
    if not (null p.cpass)
    then p.cpass
    else if not (null p.dummy_salt)
    then p.dummy_salt
    else fake_salt

-- What crypt gave is not the user's.
unfoldable pub differs : Plain → Option Bytes → Bool
differs p none = true
differs p (some h) = not (null p.cpass) && not (bytes_eq h p.cpass)

-- A wrong password.
unfoldable pub wrong_pass : Plain → Result × Plain
wrong_pass p =
    let q : Plain = record p { retries = p.retries + 1 } in
    if ltb p.retries (max_password_tries - 1)
    then (again, record q { pass_msg = failed_prompt })
    else (negative, q)

-- The part past the password: `oath` is whether oath_authenticate_usersfile returns OATH_OK.
unfoldable pub right_pass : Config → Bool → Plain → Result × Plain
right_pass c oath p =
    if null p.cpass && not c.otp_file
    then (negative, p)
    else if not c.otp_file
    then (done, p)
    else if not (null p.cpass)
    then (again, record p { cpass = []; pass_msg = otp_prompt })
    else if oath
    then (done, p)
    else (negative, p)

-- plain_auth_pass, built with liboath; `crypt` is the library's.
unfoldable pub plain_auth_pass :
    (Bytes → Bytes → Option Bytes) → Config → Bool → Bytes → Plain → Result × Plain
plain_auth_pass crypt c oath pass p =
    if p.unknown_user || differs p (crypt pass (salt_of p))
    then wrong_pass p
    else right_pass c oath p

-- The first group, where no name was chosen.
unfoldable pub or_first : ℕ → List Bytes → Bytes → Bytes
or_first size [] name = name
or_first size (g ∷ gs) name = if null name then strlcpy size g else name

-- plain_auth_group: the group, `none` for -1.
unfoldable pub plain_auth_group : Plain → ℕ → Option Bytes → Option Bytes
plain_auth_group p size none = some (or_first size p.groupnames [])
plain_auth_group p size (some suggested) =
    if found_group suggested p.groupnames
    then some (or_first size p.groupnames (strlcpy size suggested))
    else none

-- plain_auth_msg: the prompt and the counter of passwords
abbrev pub plain_auth_msg : Plain → Prompt × ℕ
plain_auth_msg p = (p.pass_msg, 0)
