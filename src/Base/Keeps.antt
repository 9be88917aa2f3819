-- ===== src/Base/Keeps.antt =====
-- What holds of every branch holds of a test and of a split on an option.
use mathlib.Core.Bool.{Bool, true, false}
use mathlib.Core.Option.{Option, none, some}
use mathlib.Core.Path.{◌≡◌, refl}
use ezviz_hp.Base.Tests.{if◌then◌else◌}

module _ {A : Type 0} (P : A → Type 0) where
  pub keep_if : (b : Bool) (x y : A) → P x → P y → P (if b then x else y)
  keep_if true x y h k = h
  keep_if false x y h k = k

  -- Each branch may use how the test came out.
  pub keep_test :
      (b : Bool) (x y : A) → (b ≡ true → P x) → (b ≡ false → P y) → P (if b then x else y)
  keep_test true x y h k = h refl
  keep_test false x y h k = k refl

  pub keep_option :
      {B : Type 0} (o : Option B) (x : A) (f : B → A)
      → P x
      → ((b : B) → P (f b))
      → P (elim o [ none ↦ x | some b ↦ f b ])
  keep_option none x f h k = h
  keep_option (some b) x f h k = k b

  pub keep_split :
      {B : Type 0} (o : Option B) (x : A) (f : B → A)
      → (o ≡ none → P x)
      → ((b : B) → o ≡ some b → P (f b))
      → P (elim o [ none ↦ x | some b ↦ f b ])
  keep_split none x f h k = h refl
  keep_split (some b) x f h k = k b refl
