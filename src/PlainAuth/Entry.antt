-- ===== src/PlainAuth/Entry.antt =====
-- The lines of the password file, and what is read of them (src/auth/plain.c).
use mathlib.Core.Path.{subst}
use ocserv.Prelude.{
  ◌<◌, ◌≡◌, ◌⊎◌, inl, inr, refl, ◌∙◌, ap, true, false, Option, none, some, List, [], ◌∷◌, Bytes,
  if◌then◌else◌, arith, length, leb, ◌==◌, Bool-cases, Option-cases, bytes_eq, bytes_eq_sound,
  bytes_eq_refl,
}
use ocserv.SecMod.Entry.{strlcpy}
use ocserv.PlainAuth.Groups.{onto_first, break_group_list}
use ocserv.PlainAuth.File.{
  Plain, found, go_on, chomp, strsep, take_pass, take_groups, take_salt, read_line, max_cpass_size,
}

-- The text between colons.
unfoldable pub fields : Bytes → List Bytes
fields [] = [] ∷ []
fields (c ∷ t) = if c == 58 then [] ∷ fields t else onto_first c (fields t)

-- A line for this user with this hash: the name stands first and the hash third.
abbrev pub IsEntry : Bytes → Bytes → Bytes → Type 0
IsEntry user key line =
    (4 < length line)
    × (groups : Bytes) × (field : Bytes) × (more : List Bytes) × (fields (chomp line)
        ≡ user ∷ groups ∷ field ∷ more)
    × (key ≡ strlcpy max_cpass_size field)

-- One of the lines is for the user.
abbrev pub Listed : (Bytes → Type 0) → List Bytes → Type 0
Listed P [] = ⊥
Listed P (line ∷ lines) = P line ⊎ Listed P lines

after_colon : Option Bytes → List Bytes
after_colon none = []
after_colon (some t) = fields t

fields-strsep : (t : Bytes) → fields t ≡ (strsep t).0 ∷ after_colon (strsep t).1
unfolding fields strsep onto_first after_colon
fields-strsep [] = refl
fields-strsep (c ∷ t) = let rest = fields-strsep t in ground (arith, rest)

split_at : (t r : Bytes) → (strsep t).1 ≡ some r → fields t ≡ (strsep t).0 ∷ fields r
unfolding after_colon
split_at t r e = fields-strsep t ∙ ap (λ o. (strsep t).0 ∷ after_colon o) e

-- What a line is that ends the reading.
pub found-IsEntry :
    (p q : Plain) (line : Bytes)
    → read_line p line ≡ found q
    → IsEntry p.username q.cpass line × (q.unknown_user ≡ false)
unfolding read_line take_groups take_pass
found-IsEntry p q line h =
    let s = strsep (chomp line) in
    elim (Bool-cases (leb (length line) 4)) [
      | inl short ↦ absurd (ground arith)
      | inr long ↦ elim (Bool-cases (bytes_eq p.username s.0)) [
        | inr other ↦ absurd (ground arith)
        | inl same ↦ elim (Option-cases s.1) [
          | inl nothing ↦ absurd (ground arith)
          | inr (text, got) ↦ elim (Option-cases (strsep text).1) [
            | inl nothing ↦ absurd (ground arith)
            | inr (rest, key) ↦
                (let name = bytes_eq_sound p.username s.0 same in
                  let text_of = split_at (chomp line) text got in
                  let fields_of = split_at text rest key in
                  let last = fields-strsep rest in
                  (
                    (
                      ground arith,
                      (strsep text).0,
                      (strsep rest).0,
                      after_colon (strsep rest).1,
                      cc,
                      ground arith,
                    ),
                    ground arith,
                  ))
          ]
        ]
      ]
    ]

-- A line for the user ends the reading.
pub entry_found :
    (p : Plain) (key line : Bytes)
    → IsEntry p.username key line
    → (q : Plain) × (read_line p line ≡ found q)
unfolding read_line take_groups take_pass after_colon
entry_found p key line (long, groups, field, more, e, k) =
    let s = strsep (chomp line) in
    let nothing_left : (t : Bytes) → (strsep t).1 ≡ none → fields t ≡ (strsep t).0 ∷ [] =
      λ t h. fields-strsep t ∙ ap (λ o. (strsep t).0 ∷ after_colon o) h in
    elim (Option-cases s.1) [
      | inl nothing ↦ (let one = nothing_left (chomp line) nothing in absurd cc)
      | inr (text, got) ↦
          (let first = split_at (chomp line) text got in
            let same : p.username ≡ s.0 = cc in
            let test : bytes_eq p.username s.0 ≡ true =
              subst (λ n. bytes_eq p.username n ≡ true) same (bytes_eq_refl p.username) in
            elim (Option-cases (strsep text).1) [
              | inl nothing ↦ (let one = nothing_left text nothing in absurd cc)
              | inr (rest, third) ↦ (
                record p {
                  groupnames = break_group_list (strsep text).0;
                  cpass = strlcpy max_cpass_size (strsep rest).0;
                  unknown_user = false;
                },
                ground arith,
              )
            ])
    ]

-- What a line leaves alone, if the reading goes on.
pub line_keeps :
    (p q : Plain) (line : Bytes)
    → (read_line p line ≡ found q) ⊎ (read_line p line ≡ go_on q)
    → (q.username ≡ p.username) × (q.retries ≡ p.retries) × (q.pass_msg ≡ p.pass_msg)
unfolding read_line take_groups take_pass take_salt
line_keeps p q line h = ground arith

pub go_on_keeps :
    (p q : Plain) (line : Bytes)
    → read_line p line ≡ go_on q
    → (q.unknown_user ≡ p.unknown_user) × (q.cpass ≡ p.cpass)
unfolding read_line take_groups take_pass take_salt
go_on_keeps p q line h = ground arith
