-- ===== src/Base/Bytes.antt =====
-- Byte strings, and `struct.pack` and `struct.unpack` of the formats `>H`, `>I` and `<I`.
use ezviz_hp.Base.Lists.{get_or}
use Prim.Native.Nat.{ℕ, suc, ◌+◌, ◌*◌, ◌/◌, ◌%◌, ◌<◌, ◌^◌}
use mathlib.Core.Path.{◌≡◌, refl}
use mathlib.Core.List.{List, [], ◌∷◌}
use mathlib.Core.Bool.{Bool, true, false, ◌&&◌}
use native.Mathlib.Omega.{arith}
use ezviz_hp.Base.Tests.{◌==◌, ltb, if◌then◌else◌}
use mathlib.Core.Option.{Option, none, some}

abbrev pub Bytes : Type 0
Bytes = List ℕ

abbrev pub All {ℓ κ} : {A : Type ℓ} → (A → Type κ) → List A → Type κ
All P [] = Unit
All P (x ∷ xs) = P x × All P xs

-- Every element is a byte.
abbrev pub AreBytes : Bytes → Type 0
AreBytes = All (λ x. x < 256)

-- `a == b` on byte strings
unfoldable pub equal : Bytes → Bytes → Bool
equal [] [] = true
equal (x ∷ xs) (y ∷ ys) = x == y && equal xs ys
equal _ _ = false

pub equal_refl : (xs : Bytes) → equal xs xs ≡ true
unfolding equal
equal_refl [] = refl
equal_refl (x ∷ xs) = ground (arith, equal_refl xs)

pub equal_sound : (xs ys : Bytes) → equal xs ys ≡ true → xs ≡ ys
unfolding equal
equal_sound [] [] h = refl
equal_sound [] (y ∷ ys) h = cc
equal_sound (x ∷ xs) [] h = cc
equal_sound (x ∷ xs) (y ∷ ys) h = ground (arith, equal_sound xs ys)

-- Two bytes at `i`, the larger first.
abbrev pub be16_at : ℕ → Bytes → ℕ
be16_at i xs = get_or xs i 0 * 256 + get_or xs (suc i) 0

abbrev pub pack_be32 : ℕ → Bytes
pack_be32 n = (n / 2 ^ 24 % 256) ∷ (n / 2 ^ 16 % 256) ∷ (n / 2 ^ 8 % 256) ∷ (n % 256) ∷ []

abbrev pub unpack_be32 : Bytes → ℕ
unpack_be32 xs =
    get_or xs 0 0 * 2 ^ 24 + get_or xs 1 0 * 2 ^ 16 + get_or xs 2 0 * 2 ^ 8 + get_or xs 3 0

abbrev pub pack_le32 : ℕ → Bytes
pack_le32 n = (n % 256) ∷ (n / 2 ^ 8 % 256) ∷ (n / 2 ^ 16 % 256) ∷ (n / 2 ^ 24 % 256) ∷ []

abbrev pub unpack_le32 : Bytes → ℕ
unpack_le32 xs =
    get_or xs 0 0 + get_or xs 1 0 * 2 ^ 8 + get_or xs 2 0 * 2 ^ 16 + get_or xs 3 0 * 2 ^ 24

-- `struct.pack(">I", n)`; `none` stands for the `struct.error` of a number that does not fit
abbrev pub pack_u32 : ℕ → Option Bytes
pack_u32 n = if ltb n (2 ^ 32) then some (pack_be32 n) else none

pub unpack-pack_be32 : (n : ℕ) → n < 2 ^ 32 → unpack_be32 (pack_be32 n) ≡ n
unpack-pack_be32 n h = omega arith
