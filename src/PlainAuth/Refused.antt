-- ===== src/PlainAuth/Refused.antt =====
-- Wrong passwords and unknown users (src/auth/plain.c).
use ocserv.Prelude.{
  ◌+◌, ◌<◌, ◌≡◌, ◌⊎◌, inl, inr, refl, ap, Bool, true, false, ◌||◌, ◌&&◌, not, ◌≢◌, none, List, [],
  ◌∷◌, ◌++◌, Bytes, if◌then◌else◌, arith, length, ltb,
}
use ocserv.SecMod.Auth.{done, again, negative}
use ocserv.PlainAuth.File.{Plain, Config, null, failed_prompt, otp_prompt}
use ocserv.PlainAuth.Pass.{plain_auth_pass, differs, salt_of, wrong_pass}
use ocserv.PlainAuth.Login.{Attempt, Crypt, attempts, seen}
use ocserv.PlainAuth.Accepted.{opens, wrong_again, attempts_wrong, attempts_right}

module _ (crypt : Crypt) where
  -- None of the passwords has the hash.
  unfoldable pub none_opens : Bytes → List Attempt → Bool
  none_opens key [] = true
  none_opens key (a ∷ l) = not (opens crypt key a) && none_opens key l

  -- The passwords are wrong: there is no such user, or the user has a hash, which none of them has.
  abbrev pub Wrong : Plain → List Attempt → Type 0
  Wrong p l = (p.unknown_user ≡ true) ⊎ (null p.cpass ≡ false) × (none_opens p.cpass l ≡ true)

  module _ (c : Config) where
    refused_first :
        (p : Plain) (a : Attempt) (l : List Attempt)
        → Wrong p (a ∷ l)
        → (p.unknown_user || differs p (crypt a.0 (salt_of p))) ≡ true
    unfolding none_opens differs salt_of
    refused_first p a l w = ground arith

    refused_rest :
        (p : Plain) (a : Attempt) (l : List Attempt)
        → Wrong p (a ∷ l)
        → Wrong (wrong_again crypt c p) l
    unfolding none_opens wrong_again
    refused_rest p a l (inl u) = inl u
    refused_rest p a l (inr (k, w)) = inr (k, ground arith)

    seen_wrong :
        (p : Plain) (a : Attempt) (l : List Attempt)
        → (p.unknown_user || differs p (crypt a.0 (salt_of p))) ≡ true
        → seen crypt c p (a ∷ l) ≡ (
            if ltb p.retries 2
            then (again, failed_prompt) ∷ seen crypt c (wrong_again crypt c p) l
            else (negative, p.pass_msg) ∷ [])
    unfolding seen plain_auth_pass wrong_pass wrong_again
    seen_wrong p a l h = ground arith

    -- Two users who are asked in the same way, and of whom none is given away by a password, see
    -- the same.
    pub seen_same :
        (p q : Plain) (l : List Attempt)
        → Wrong p l
        → Wrong q l
        → p.retries ≡ q.retries
        → p.pass_msg ≡ q.pass_msg
        → seen crypt c p l ≡ seen crypt c q l
    unfolding seen wrong_again
    seen_same p q [] w v r m = refl
    seen_same p q (a ∷ l) w v r m =
        let rest =
          seen_same (wrong_again crypt c p) (wrong_again crypt c q) l (refused_rest p a l w)
            (refused_rest q a l v) (ap (λ n. n + 1) r) refl in
        let e = seen_wrong p a l (refused_first p a l w) in
        let d = seen_wrong q a l (refused_first q a l v) in ground arith

    -- A known user with a hash is let in by the right password after wrong ones, if fewer than three
    -- are counted with those before; where one-time passwords are in use, by a good one after it, if
    -- crypt does not reject that under the salt that is used where there is no hash.
    pub attempts-done :
        (p : Plain) (wrong l : List Attempt) (a b : Attempt)
        → p.unknown_user ≡ false
        → null p.cpass ≡ false
        → none_opens p.cpass wrong ≡ true
        → p.retries + length wrong < 3
        → opens crypt p.cpass a ≡ true
        → (c.otp_file ≡ false)
          ⊎ (b.1 ≡ true) × (crypt b.0 (salt_of (record p { cpass = [] })) ≢ none)
        → attempts crypt c p (wrong ++ a ∷ b ∷ l) ≡ done
    unfolding wrong_again differs salt_of none_opens
    attempts-done p [] l a b known key shown few right otp =
        let e = attempts_right crypt c p a (b ∷ l) (ground arith) in
        let d = attempts_right crypt c (record p { cpass = []; pass_msg = otp_prompt }) b l in
        ground arith
    attempts-done p (w ∷ wrong) l a b known key shown few right otp =
        let rest =
          attempts-done (wrong_again crypt c p) wrong l a b known key (ground arith)
            (omega (arith, few)) right otp in
        let e =
          attempts_wrong crypt c p w (wrong ++ a ∷ b ∷ l)
            (refused_first p w wrong (inr (key, shown))) in
        ground (arith, rest)
