-- ===== src/PlainAuth/File.antt =====
-- Reading the password file (read_auth_pass, plain_auth_init, src/auth/plain.c).
use ocserv.Prelude.{
  ℕ, Bool, true, false, not, ◌&&◌, ◌||◌, Option, none, some, List, [], ◌∷◌, Bytes, bytes_eq, leb,
  ◌==◌, if◌then◌else◌, length,
}
use ocserv.SecMod.Entry.{strlcpy}
use ocserv.SecMod.Checks.{max_username_size}
use ocserv.SecMod.Auth.{Result, done, again, negative}
use ocserv.PlainAuth.Groups.{break_group_list}

abbrev pub max_cpass_size : ℕ
max_cpass_size = 128

-- pass_msg: NULL, pass_msg_otp or pass_msg_failed.
pub data Prompt : Type 0 where
  default otp_prompt failed_prompt : Prompt

-- struct plain_st, without the pointer to its configuration
pub record Plain : Type 0 where
  pub username : Bytes
  pub cpass : Bytes
  pub dummy_salt : Bytes
  pub groupnames : List Bytes
  pub pass_msg : Prompt
  pub retries : ℕ
  pub unknown_user : Bool

-- struct plain_cfg_st, with the files that are named: whether there is a password file and, if it
-- can be opened, its lines as fgets reads them; and whether there is a file of one-time passwords.
pub record Config : Type 0 where
  pub passwd : Bool
  pub file : Option (List Bytes)
  pub otp_file : Bool

-- strsep(&sp, ":"): the text up to the colon, and what is left after it, `none` for NULL.
unfoldable pub strsep : Bytes → Bytes × Option Bytes
strsep [] = ([], none)
strsep (c ∷ t) = let rest = strsep t in if c == 58 then ([], some t) else (c ∷ rest.0, rest.1)

-- line[ll - 1] = 0 where it is the byte c
unfoldable pub drop_last : ℕ → Bytes → Bytes
drop_last c [] = []
drop_last c (x ∷ []) = if x == c then [] else x ∷ []
drop_last c (x ∷ y ∷ t) = x ∷ drop_last c (y ∷ t)

-- Without the end of the line.
abbrev pub chomp : Bytes → Bytes
chomp line = drop_last 13 (drop_last 10 line)

-- What a line does to the state: it ends the reading, or the reading goes on.
pub data Step : Type 0 where
  found go_on : Plain → Step

-- The third field of a line of the user.
unfoldable pub take_pass : Plain → Option Bytes → Step
take_pass p none = go_on p
take_pass p (some text) =
    found (record p { cpass = strlcpy max_cpass_size (strsep text).0; unknown_user = false })

-- The second field and the third.
unfoldable pub take_groups : Plain → Option Bytes → Step
take_groups p none = go_on p
take_groups p (some text) =
    take_pass (record p { groupnames = break_group_list (strsep text).0 }) (strsep text).1

abbrev pub starts_with : ℕ → Bytes → Bool
starts_with c [] = false
starts_with c (x ∷ t) = x == c

-- The third field of a line of another user, as a salt.
unfoldable pub take_salt : Plain → Option Bytes → Plain
take_salt p none = p
take_salt p (some text) =
    if starts_with 36 (strsep text).0
    then record p { dummy_salt = strlcpy max_cpass_size (strsep text).0 }
    else p

abbrev pub skip_groups : Option Bytes → Option Bytes
skip_groups none = none
skip_groups (some text) = (strsep text).1

abbrev pub null : Bytes → Bool
null [] = true
null (c ∷ t) = false

-- A line of the loop of read_auth_pass.
unfoldable pub read_line : Plain → Bytes → Step
read_line p line =
    let (name, rest) = strsep (chomp line) in
    if leb (length line) 4
    then go_on p
    else if bytes_eq p.username name
    then take_groups p rest
    else if null p.dummy_salt
    then go_on (take_salt p (skip_groups rest))
    else go_on p

unfoldable pub read_lines : Plain → List Bytes → Plain
read_lines p [] = p
read_lines p (line ∷ lines) = elim (read_line p line) [ found q ↦ q | go_on q ↦ read_lines q lines ]

-- read_auth_pass: the state, `none` for -1.
unfoldable pub read_auth_pass : Config → Plain → Option Plain
read_auth_pass c p = if not c.passwd then some p else elim c.file [
  | none ↦ none
  | some lines ↦ some (read_lines (record p { unknown_user = true }) lines)
]

-- The zeroed state with the user's name.
abbrev pub new_plain : Bytes → Plain
new_plain name = record {
  username = strlcpy max_username_size name;
  cpass = [];
  dummy_salt = [];
  groupnames = [];
  pass_msg = default;
  retries = 0;
  unknown_user = false;
}

-- The end of plain_auth_init.
unfoldable pub first_prompt : Config → Plain → Result × Plain
first_prompt c p =
    if null p.cpass && not p.unknown_user
    then if c.otp_file then (again, record p { pass_msg = otp_prompt }) else (done, p)
    else (again, p)

-- plain_auth_init, with the answer of talloc_zero: ERR_AUTH_FAIL and no context, or a result and
-- the context.
unfoldable pub plain_auth_init : Config → Bool → Option Bytes → Result × Option Plain
plain_auth_init c memory none = (negative, none)
plain_auth_init c memory (some name) =
    if null name || not memory then (negative, none) else elim (read_auth_pass c (new_plain name)) [
      | none ↦ (negative, none)
      | some p ↦ ((first_prompt c p).0, some (first_prompt c p).1)
    ]
