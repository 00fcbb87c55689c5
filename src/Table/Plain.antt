-- ===== src/Table/Plain.antt =====
-- A table that puts a new entry first and never runs out of memory: what `Htable` asks can be met.
use mathlib.Core.List.{Permᴰ}
use mathlib.Core.List.Permᴰ
use ocserv.Prelude.{◌≡◌, refl, Option, some, List, ◌∷◌}
use ocserv.Table.Laws.{find}
use ocserv.Table.Interface.{Htable}
use mathlib.Core.Path.{subst}

abbrev pub push {ℓ} : {E : Type ℓ} → E → List E → Option (List E)
push e t = some (e ∷ t)

pub push-perm : {E : Type 0} (e : E) (t u : List E) → push e t ≡ some u → Permᴰ u (e ∷ t)
push-perm e t u h =
    let same : e ∷ t ≡ u = cc in subst (λ w. Permᴰ w (e ∷ t)) same (Permᴰ.refl (e ∷ t))

abbrev pub plain : (E : Type 0) → Htable E
plain E = record { add = push; add-perm = push-perm; get = find; get-find = λ p t h. refl }
