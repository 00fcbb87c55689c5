-- ===== src/SecMod/Checks.antt =====
-- The checks of user, group and certificate at the end of an authentication
-- (check_cert_user_group_status and check_group, src/sec-mod-auth.c).
use ocserv.Prelude.{
  ℕ, ◌*◌, ◌/◌, ◌%◌, Bool, true, false, not, ◌&&◌, ◌||◌, Option, none, some, List, [], ◌∷◌, Bytes,
  bytes_eq, ◌==◌, if◌then◌else◌,
}
use ocserv.SecMod.Entry.{Client, strlcpy}

abbrev pub max_username_size : ℕ
max_username_size = 64

abbrev pub max_groupname_size : ℕ
max_groupname_size = 64

-- e->auth_type & AUTH_TYPE_CERTIFICATE
abbrev pub uses_certificate : Client → Bool
uses_certificate e = e.auth_type / 8 % 2 == 1

-- s[0] == 0
abbrev pub is_empty : Bytes → Bool
is_empty [] = true
is_empty (c ∷ s) = false

abbrev pub is_set : Option Bytes → Bool
is_set none = false
is_set (some o) = true

-- The loops that look for a group among those of the certificate.
unfoldable pub in_groups : Bytes → List Bytes → Bool
in_groups g [] = false
in_groups g (x ∷ xs) = bytes_eq g x || in_groups g xs

-- The group that the certificate gives to a user who has none.
unfoldable pub first_group : Client → Bytes
first_group e = elim e.cert_group_names [
  | [] ↦ e.groupname
  | g ∷ gs ↦
      if is_set e.vhost.cert_group_oid && is_empty e.groupname
      then strlcpy max_groupname_size g
      else e.groupname
]

-- A check answers whether it passes, with the entry as it leaves it.
abbrev pub Check : Type 0
Check = Bool × Client

infixl 5 ◌>>=◌
abbrev pub ◌>>=◌ : Check → (Client → Check) → Check
(true, e) >>= f = f e
(false, e) >>= f = (false, e)

-- The tests of check_cert_user_group_status: no user in the certificate although one is wanted,
-- another user than the one who logged in, and a group that the certificate does not have.
abbrev pub user_missing : Client → Bool
user_missing e = is_set e.vhost.cert_user_oid && is_empty e.cert_user_name

abbrev pub takes_user : Client → Bool
takes_user e = is_empty e.username && is_set e.vhost.cert_user_oid

abbrev pub other_user : Client → Bool
other_user e =
    is_set e.vhost.cert_user_oid
    && not (is_empty e.cert_user_name)
    && not (bytes_eq e.username e.cert_user_name)

abbrev pub group_missing : Client → Bool
group_missing e = is_set e.vhost.cert_group_oid && not (in_groups e.groupname e.cert_group_names)

-- check_cert_user_group_status
unfoldable pub check_cert_user_group_status : Client → Check
unfolding first_group in_groups
check_cert_user_group_status e =
    if not (uses_certificate e)
    then (true, e)
    else if user_missing e
    then (false, e)
    else if not e.tls_auth_ok
    then (false, e)
    else if takes_user e
    then (
      true,
      record e {
        username = strlcpy (2 * max_username_size) e.cert_user_name;
        groupname = first_group e;
      },
    )
    else if other_user e
    then (false, e)
    else if group_missing e
    then (false, e)
    else (true, e)

-- What the authentication module answers when it is asked for the group, from the requested group
-- and the buffer: whether it accepts, and the buffer as it leaves it.
abbrev pub GroupAnswer : Type 0
GroupAnswer = Option Bytes → Bytes → Bool × Bytes

abbrev pub requested : Client → Option Bytes
requested e = if is_empty e.req_group_name then none else some e.req_group_name

-- The first part of check_group: the group of the module.
unfoldable pub module_group : GroupAnswer → Client → Check
module_group answer e = elim e.amod [
  | none ↦ (true, e)
  | some m ↦
      if m.has_auth_group
      then (let (accepted, g) = answer (requested e) e.groupname in
          if accepted
          then (true, record e { groupname = strlcpy max_groupname_size g })
          else (false, record e { groupname = g }))
      else (true, e)
]

-- The second part: the requested group, if the certificate has it.
unfoldable pub certificate_group : Client → Check
unfolding in_groups
certificate_group e =
    if uses_certificate e
      && is_empty e.groupname
      && not (is_empty e.req_group_name)
      && is_set e.vhost.cert_group_oid
    then (if in_groups e.req_group_name e.cert_group_names
        then (true, record e { groupname = strlcpy max_groupname_size e.req_group_name })
        else (false, e))
    else (true, e)

-- check_group
unfoldable pub check_group : GroupAnswer → Client → Check
check_group answer e = do
  e₁ ← module_group answer e
  e₂ ← certificate_group e₁
  check_cert_user_group_status e₂
