-- ===== src/Table/Interface.antt =====
-- What the programs rely on of the library's tables.
use mathlib.Core.List.{Permᴰ}
use ocserv.Prelude.{◌≤◌, ◌≡◌, Bool, Option, some, List, ◌∷◌}
use ocserv.Table.Laws.{find, count}

-- `add` (htable_add) fails for want of memory, and otherwise may reorder the table. `get`
-- (htable_get) returns an entry for which the comparison holds, if there is one.
pub record Htable (E : Type 0) : Type 1 where
  pub add : E → List E → Option (List E)
  pub add-perm : (e : E) (t u : List E) → add e t ≡ some u → Permᴰ u (e ∷ t)
  pub get : (E → Bool) → List E → Option E
  pub get-find : (p : E → Bool) (t : List E) → count p t ≤ 1 → get p t ≡ find p t
