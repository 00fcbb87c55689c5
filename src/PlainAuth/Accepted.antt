-- ===== src/PlainAuth/Accepted.antt =====
-- Who is let in by passwords: the code against a description of it (src/auth/plain.c).
use ocserv.Prelude.{
  ◌+◌, ◌≡◌, Bool, true, false, not, ◌&&◌, ◌||◌, none, some, List, [], ◌∷◌, Bytes, bytes_eq,
  if◌then◌else◌, arith, Bool-cases, inl, inr, ltb,
}
use ocserv.SecMod.Auth.{done, negative}
use ocserv.PlainAuth.File.{Plain, Config, null, failed_prompt, otp_prompt, otp_prompt}
use ocserv.PlainAuth.Pass.{plain_auth_pass, wrong_pass, right_pass, differs, salt_of}
use ocserv.PlainAuth.Login.{Attempt, Crypt, attempts}

module _ (crypt : Crypt) where
  -- The password has this hash.
  abbrev pub opens : Bytes → Attempt → Bool
  opens key a = elim (crypt a.0 key) [ none ↦ false | some h ↦ bytes_eq h key ]

  -- One of the passwords is good as a one-time password.
  unfoldable pub any_otp : List Attempt → Bool
  any_otp [] = false
  any_otp (a ∷ l) = a.1 || any_otp l

  -- One of the passwords has this hash and, if one-time passwords are in use, a later one is good as
  -- such.
  unfoldable pub any_opens : Bytes → Bool → List Attempt → Bool
  any_opens key otp [] = false
  any_opens key otp (a ∷ l) = (opens key a && (not otp || any_otp l)) || any_opens key otp l

  -- What has to be shown for an entry with this hash; an empty one stands for no password.
  abbrev pub accepted : Bytes → Bool → List Attempt → Bool
  accepted key otp l = if null key then otp && any_otp l else any_opens key otp l

  module _ (c : Config) where
    unfoldable pub wrong_again : Plain → Plain
    wrong_again p = record p { retries = p.retries + 1; pass_msg = failed_prompt }

    pub attempts_wrong :
        (p : Plain) (a : Attempt) (l : List Attempt)
        → (p.unknown_user || differs p (crypt a.0 (salt_of p))) ≡ true
        → attempts crypt c p (a ∷ l)
          ≡ (if ltb p.retries 2 then attempts crypt c (wrong_again p) l else negative)
    unfolding attempts plain_auth_pass wrong_pass wrong_again
    attempts_wrong p a l h = ground arith

    pub attempts_right :
        (p : Plain) (a : Attempt) (l : List Attempt)
        → (p.unknown_user || differs p (crypt a.0 (salt_of p))) ≡ false
        → attempts crypt c p (a ∷ l) ≡ (
            if null p.cpass
            then (if c.otp_file && a.1 then done else negative)
            else if c.otp_file
            then attempts crypt c (record p { cpass = []; pass_msg = otp_prompt }) l
            else done)
    unfolding attempts plain_auth_pass right_pass
    attempts_right p a l h = ground arith

    pub attempts-accepted :
        (p : Plain) (l : List Attempt)
        → attempts crypt c p l ≡ done
        → (p.unknown_user ≡ false) × (accepted p.cpass c.otp_file l ≡ true)
    unfolding attempts any_opens any_otp wrong_again differs salt_of
    attempts-accepted p [] h = absurd (cc)
    attempts-accepted p (a ∷ l) h =
        let wrong = attempts-accepted (wrong_again p) l in
        let right = attempts-accepted (record p { cpass = []; pass_msg = otp_prompt }) l in
        elim (Bool-cases (p.unknown_user || differs p (crypt a.0 (salt_of p)))) [
          | inl bad ↦ (let e = attempts_wrong p a l bad in ground arith)
          | inr good ↦ (let e = attempts_right p a l good in ground arith)
        ]
