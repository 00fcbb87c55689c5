-- ===== src/PlainAuth/Groups.antt =====
-- The list of groups in an entry of the password file, and the choice of one (src/auth/plain.c).
use ocserv.Prelude.{
  isspace, ℕ, suc, Bool, false, ◌||◌, Option, none, some, List, [], ◌∷◌, Bytes, bytes_eq, ltb, ◌==◌,
  if◌then◌else◌, length,
}
use ocserv.SecMod.Init.{max_groups}

-- A byte before trimmed text.
unfoldable pub before_trimmed : ℕ → Bytes → Bytes
before_trimmed c [] = if isspace c then [] else c ∷ []
before_trimmed c (d ∷ r) = c ∷ d ∷ r

-- The loop that removes trailing space. It stops at the start of the text, which the source does
-- not test.
unfoldable pub trim_end : Bytes → Bytes
trim_end [] = []
trim_end (c ∷ t) = before_trimmed c (trim_end t)

unfoldable pub trim_start : Bytes → Bytes
trim_start [] = []
trim_start (c ∷ t) = let rest = trim_start t in if isspace c then rest else c ∷ t

-- What stands before the last ' ', if there is one: strrchr.
unfoldable pub before_last_space : Bytes → Option Bytes
before_last_space [] = none
before_last_space (c ∷ t) = elim (before_last_space t) [
  | some r ↦ some (c ∷ r)
  | none ↦ if c == 32 then some [] else none
]

-- The group of the last part: it ends at the last space.
unfoldable pub last_name : Bytes → Bytes
last_name part = elim (before_last_space part) [ none ↦ part | some r ↦ trim_end r ]

unfoldable pub onto_first : ℕ → List Bytes → List Bytes
onto_first c [] = []
onto_first c (part ∷ parts) = (c ∷ part) ∷ parts

unfoldable pub trim_first : List Bytes → List Bytes
trim_first [] = []
trim_first (part ∷ parts) = trim_start part ∷ parts

-- The parts between the commas; all but the first have no white space in front.
unfoldable pub split_commas : Bytes → List Bytes
split_commas [] = [] ∷ []
split_commas (c ∷ t) =
    if c == 44 then [] ∷ trim_first (split_commas t) else onto_first c (split_commas t)

-- The loop of break_group_list over the parts, with so many groups found: it ends at the last part,
-- or with MAX_GROUPS groups. Names of one byte are skipped.
unfoldable pub group_names : ℕ → List Bytes → List Bytes
group_names n [] = []
group_names n (part ∷ []) = let name = last_name part in if length name == 1 then [] else name ∷ []
group_names n (part ∷ next ∷ parts) =
    let skipped = if ltb n max_groups then group_names n (next ∷ parts) else [] in
    let kept = if ltb (suc n) max_groups then group_names (suc n) (next ∷ parts) else [] in
    if length part == 1 then skipped else trim_end part ∷ kept

-- break_group_list, where there is memory
abbrev pub break_group_list : Bytes → List Bytes
break_group_list text = group_names 0 (split_commas text)

-- The group that plain_auth_group finds among those of the user.
unfoldable pub found_group : Bytes → List Bytes → Bool
found_group suggested [] = false
found_group suggested (g ∷ gs) = bytes_eq suggested g || found_group suggested gs
