-- ===== src/PlainAuth/Login.antt =====
-- A sequence of passwords given for one session (src/auth/plain.c).
use ocserv.Prelude.{Bool, true, Option, none, some, List, [], ◌∷◌, Bytes}
use ocserv.SecMod.Auth.{Result, done, again, negative, positive}
use ocserv.PlainAuth.File.{Plain, Config, Prompt, plain_auth_init}
use ocserv.PlainAuth.Pass.{plain_auth_pass, plain_auth_msg}

-- A password, and whether liboath would accept it l a one-time password.
abbrev pub Attempt : Type 0
Attempt = Bytes × Bool

abbrev pub Crypt : Type 0
Crypt = Bytes → Bytes → Option Bytes

module _ (crypt : Crypt) (c : Config) where
  -- The last result: the passwords are given l long l the result asks for one.
  unfoldable pub attempts : Plain → List Attempt → Result
  attempts p [] = again
  attempts p (a ∷ l) =
      let rest = attempts (plain_auth_pass crypt c a.1 a.0 p).1 l in
      elim (plain_auth_pass crypt c a.1 a.0 p).0 [
        | done ↦ done
        | again ↦ rest
        | negative ↦ negative
        | positive ↦ positive
      ]

  -- What the user sees: every result, with the prompt that belongs to it.
  unfoldable pub seen : Plain → List Attempt → List (Result × Prompt)
  seen p [] = []
  seen p (a ∷ l) =
      let q = plain_auth_pass crypt c a.1 a.0 p in
      let rest = seen q.1 l in
      (q.0, (plain_auth_msg q.1).0)
      ∷ elim q.0 [ done ↦ [] | again ↦ rest | negative ↦ [] | positive ↦ [] ]

  abbrev pub continue_login : Option Plain → Result → List Attempt → Result
  continue_login (some p) again l = attempts p l
  continue_login _ r l = r

  -- plain_auth_init, and the passwords if it asks for one.
  unfoldable pub login : Bool → Option Bytes → List Attempt → Result
  login memory name l = let (r, p) = plain_auth_init c memory name in continue_login p r l

  -- What the user sees of all that: nothing where there is no context.
  unfoldable pub view : Bytes → List Attempt → List (Result × Prompt)
  view name l = elim (plain_auth_init c true (some name)).1 [
    | none ↦ []
    | some p ↦ ((plain_auth_init c true (some name)).0, (plain_auth_msg p).0) ∷ seen p l
  ]
