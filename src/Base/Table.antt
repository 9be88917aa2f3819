-- ===== src/Base/Table.antt =====
-- Dictionaries with byte strings as keys.
use ezviz_hp.Base.Bytes.{Bytes, equal, equal_refl, equal_sound}
use ezviz_hp.Base.Tests.{if◌then◌else◌, Bool-cases}
use mathlib.Core.Path.{◌≡◌, refl, ap, ◌∙◌}
use mathlib.Core.Bool.{false}
use mathlib.Core.Logic.{inl, inr}
use mathlib.Core.Option.{Option, none, some}
use mathlib.Core.List.{List, [], ◌∷◌}
use native.Mathlib.Omega.{arith}

abbrev pub Table : Type 0 → Type 0
Table V = List (Bytes × V)

module _ {V : Type 0} where
  -- `d.get(k)`
  unfoldable pub value_at : Bytes → Table V → Option V
  value_at k [] = none
  value_at k ((j, v) ∷ d) = if equal j k then some v else value_at k d

  -- `d[k] = v`
  unfoldable pub put : Bytes → V → Table V → Table V
  put k v [] = (k, v) ∷ []
  put k v ((j, w) ∷ d) = if equal j k then (k, v) ∷ d else (j, w) ∷ put k v d

  -- `d.pop(k, None)`
  unfoldable pub remove : Bytes → Table V → Table V
  remove k [] = []
  remove k ((j, v) ∷ d) = let rest = remove k d in if equal j k then rest else (j, v) ∷ rest

  pub value_at-put : (k : Bytes) (v : V) (d : Table V) → value_at k (put k v d) ≡ some v
  unfolding value_at put
  value_at-put k v [] = rw (equal_refl k)
  value_at-put k v ((j, w) ∷ d) = ground (arith, equal_refl k, value_at-put k v d)

  pub value_at-remove : (k : Bytes) (d : Table V) → value_at k (remove k d) ≡ none
  unfolding value_at remove
  value_at-remove k [] = refl
  value_at-remove k ((j, w) ∷ d) = ground (arith, value_at-remove k d)

  pub value_at-remove_other :
      (k j : Bytes) (d : Table V) → equal k j ≡ false → value_at j (remove k d) ≡ value_at j d
  unfolding value_at remove
  value_at-remove_other k j [] h = refl
  value_at-remove_other k j ((i, w) ∷ d) h = elim (Bool-cases (equal i k)) [
    | inl e ↦
        let same : equal i j ≡ false = ap (λ x. equal x j) (equal_sound i k e) ∙ h in
        rw (e, same) (value_at-remove_other k j d h)
    | inr e ↦ rw e (ground (arith, value_at-remove_other k j d h))
  ]
