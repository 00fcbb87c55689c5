-- ===== src/PlainAuth/Secure.antt =====
-- Who is let in: the file, the first answer and the passwords together (src/auth/plain.c).
use mathlib.Core.Path.{subst}
use ocserv.Prelude.{
  ◌≡◌, refl, ◌⊎◌, ◌↔◌, inl, inr, sym, ◌∙◌, Bool, true, false, not, ◌||◌, none, some, List, [], ◌∷◌,
  Bytes, if◌then◌else◌, arith, Bool-cases,
}
use ocserv.SecMod.Entry.{strlcpy}
use ocserv.SecMod.Checks.{max_username_size}
use ocserv.SecMod.Auth.{done, negative}
use ocserv.PlainAuth.File.{
  Plain, Config, Step, found, go_on, otp_prompt, null, read_line, read_lines, read_auth_pass,
  new_plain, first_prompt, plain_auth_init,
}
use ocserv.PlainAuth.Login.{Attempt, Crypt, login, continue_login, view}
use ocserv.PlainAuth.Accepted.{any_otp, any_opens, attempts-accepted}
use ocserv.PlainAuth.Refused.{Wrong, seen_same}
use ocserv.PlainAuth.Entry.{IsEntry, Listed, found-IsEntry, entry_found, line_keeps, go_on_keeps}

step-cases : (s : Step) → ((q : Plain) × (s ≡ found q)) ⊎ ((q : Plain) × (s ≡ go_on q))
step-cases (found q) = inl (q, refl)
step-cases (go_on q) = inr (q, refl)

some_key :
    (user key : Bytes) (lines : List Bytes)
    → Listed (IsEntry user key) lines
    → Listed (λ line. (k : Bytes) × IsEntry user k line) lines
some_key user key [] x = x
some_key user key (line ∷ lines) (inl i) = inl (key, i)
some_key user key (line ∷ lines) (inr later) = inr (some_key user key lines later)

-- A user who is found has an entry.
lines-Listed :
    (p : Plain) (lines : List Bytes)
    → p.unknown_user ≡ true
    → (read_lines p lines).unknown_user ≡ false
    → Listed (IsEntry p.username (read_lines p lines).cpass) lines
unfolding read_lines
lines-Listed p [] u k = absurd cc
lines-Listed p (line ∷ lines) u k = elim (step-cases (read_line p line)) [
  | inl (q, e) ↦
      (let same : read_lines p (line ∷ lines) ≡ q = ground arith in
        inl (subst (λ r. IsEntry p.username r.cpass line) (sym same) (found-IsEntry p q line e).0))
  | inr (q, e) ↦
      (let same : read_lines p (line ∷ lines) ≡ read_lines q lines = ground arith in
        let kept = go_on_keeps p q line e in
        let rest = lines-Listed q lines (ground arith) (ground arith) in
        let name = (line_keeps p q line (inr e)).0 in
        let named = subst (λ n. Listed (IsEntry n (read_lines q lines).cpass) lines) name rest in
        inr (subst (λ r. Listed (IsEntry p.username r.cpass) lines) (sym same) named))
]

lines_keep :
    (p : Plain) (lines : List Bytes)
    → ((read_lines p lines).username ≡ p.username)
      × ((read_lines p lines).retries ≡ p.retries)
      × ((read_lines p lines).pass_msg ≡ p.pass_msg)
unfolding read_lines
lines_keep p [] = (refl, refl, refl)
lines_keep p (line ∷ lines) = elim (step-cases (read_line p line)) [
  | inl (q, e) ↦ (let k = line_keeps p q line (inl e) in ground arith)
  | inr (q, e) ↦
      (let k = line_keeps p q line (inr e) in let rest = lines_keep q lines in ground arith)
]

-- A user who has an entry is found.
lines-known :
    (p : Plain) (lines : List Bytes)
    → Listed (λ line. (key : Bytes) × IsEntry p.username key line) lines
    → (read_lines p lines).unknown_user ≡ false
unfolding read_lines
lines-known p [] x = elim x [ ]
lines-known p (line ∷ lines) (inl (key, i)) =
    let (q, e) = entry_found p key line i in let k = found-IsEntry p q line e in ground arith
lines-known p (line ∷ lines) (inr later) = elim (step-cases (read_line p line)) [
  | inl (q, e) ↦ (let k = (found-IsEntry p q line e).1 in ground arith)
  | inr (q, e) ↦
      (let name = (line_keeps p q line (inr e)).0 in
        let rest =
          lines-known q lines
            (subst (λ n. Listed (λ x. (key : Bytes) × IsEntry n key x) lines) (sym name) later) in
        ground arith)
]

-- The state that is read for a user.
abbrev pub state_of : Bytes → List Bytes → Plain
state_of name lines = read_lines (record (new_plain name) { unknown_user = true }) lines

-- A user is known if and only if a line of the password file is for that user.
pub state_of-Listed :
    (name : Bytes) (lines : List Bytes)
    → ((state_of name lines).unknown_user ≡ false)
      ↔ Listed (λ line. (key : Bytes) × IsEntry (strlcpy max_username_size name) key line) lines
state_of-Listed name lines =
    let p : Plain = record (new_plain name) { unknown_user = true } in
    let user = strlcpy max_username_size name in
    (
      λ known. some_key user (state_of name lines).cpass lines (lines-Listed p lines refl known),
      lines-known p lines,
    )

-- What has to be shown for an entry with this hash. An empty one stands for no password.
abbrev pub entitled : Crypt → Bytes → Bool → List Attempt → Bool
entitled crypt key otp l =
    if null key then not otp || any_otp crypt l else any_opens crypt key otp l

module _ (crypt : Crypt) (c : Config) (lines : List Bytes) (passwd : c.passwd ≡ true)
    (file : c.file ≡ some lines) where
  init_state :
      (name : Bytes)
      → plain_auth_init c true (some name) ≡ (
          if null name then (negative, none) else (
            (first_prompt c (state_of name lines)).0,
            some (first_prompt c (state_of name lines)).1,
          ))
  unfolding plain_auth_init read_auth_pass
  init_state name = ground arith

  granted :
      (p : Plain) (l : List Attempt)
      → continue_login crypt c (some (first_prompt c p).1) (first_prompt c p).0 l ≡ done
      → (p.unknown_user ≡ false) × (entitled crypt p.cpass c.otp_file l ≡ true)
  unfolding first_prompt
  granted p l h =
      let good = attempts-accepted crypt c p l in
      let fine = attempts-accepted crypt c (record p { pass_msg = otp_prompt }) l in ground arith

  -- Who is let in has a line in the password file that begins with the name given, and gave a
  -- password for its hash, then a one-time password where these are in use; without a hash, a
  -- one-time password, or nothing where these are not in use.
  pub login-entitled :
      (name : Bytes) (l : List Attempt)
      → login crypt c true (some name) l ≡ done
      → (key : Bytes) × Listed (IsEntry (strlcpy max_username_size name) key) lines
        × (entitled crypt key c.otp_file l ≡ true)
  unfolding login first_prompt
  login-entitled name l h =
      let p = state_of name lines in
      let e = init_state name in
      elim (Bool-cases (null name)) [
        | inl empty ↦ absurd (ground arith)
        | inr named ↦
            (let (known, shown) = granted p l (ground arith) in
              (
                p.cpass,
                lines-Listed (record (new_plain name) { unknown_user = true }) lines refl known,
                shown,
              ))
      ]

  -- A user without a line is not told from one whose passwords are wrong.
  pub view_unlisted :
      (name other : Bytes) (l : List Attempt)
      → null name ≡ false
      → null other ≡ false
      → Wrong crypt (state_of name lines) l
      → ¬ Listed (λ line. (key : Bytes) × IsEntry (strlcpy max_username_size other) key line) lines
      → view crypt c name l ≡ view crypt c other l
  unfolding view first_prompt
  view_unlisted name other l named also w unlisted =
      let p = state_of name lines in
      let q = state_of other lines in
      let start : Bytes → Plain = λ n. record (new_plain n) { unknown_user = true } in
      let e = init_state name in
      let d = init_state other in
      let kp = lines_keep (start name) lines in
      let kq = lines_keep (start other) lines in
      let unknown : q.unknown_user ≡ true = elim (Bool-cases q.unknown_user) [
        | inl u ↦ u
        | inr known ↦ absurd (
            unlisted (
              some_key (strlcpy max_username_size other) q.cpass lines
                (lines-Listed (start other) lines refl known)))
      ] in
      let same = seen_same crypt c p q l w (inl unknown) (kp.1 ∙ sym kq.1) (kp.2 ∙ sym kq.2) in
      ground arith
