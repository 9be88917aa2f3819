-- ===== src/Cpd7/Crypto/Masks.antt =====
-- `bit_and` and `bit_or`, byte by byte.
use Prim.Native.Nat.{digits, bit_and-bitwise, bit_or-bitwise}
use ezviz_hp.Base.{
  ℕ, zero, suc, ◌+◌, ◌*◌, ◌/◌, ◌%◌, ◌^◌, ◌≤◌, ◌<◌, min, max, bit_and, bit_or, ◌≡◌, refl, ap, arith,
}

-- A bitwise operation at two numbers is its lowest digit and the operation at the two halves.
module _ (z : ℕ → ℕ) (f : ℕ → ℕ → ℕ) where
  stable : (x y fuel more : ℕ) → x ≤ fuel → x ≤ more → digits z f fuel x y ≡ digits z f more x y
  stable zero y zero zero h k = refl
  stable zero y zero (suc more) h k = refl
  stable zero y (suc fuel) zero h k = refl
  stable zero y (suc fuel) (suc more) h k = refl
  stable (suc x) y zero more h k = absurd (omega arith)
  stable (suc x) y (suc fuel) zero h k = absurd (omega arith)
  stable (suc x) y (suc fuel) (suc more) h k =
      omega (arith, stable (suc x / 2) (y / 2) fuel more (omega arith) (omega arith))

  lowest :
      (g : ℕ → ℕ → ℕ)
      → ((x y : ℕ) → g x y ≡ digits z f x x y)
      → ((y : ℕ) → z y ≡ f 0 (y % 2) + 2 * z (y / 2))
      → (x y : ℕ) → g x y ≡ f (x % 2) (y % 2) + 2 * g (x / 2) (y / 2)
  lowest g law base zero y = omega (arith, law 0 y, law 0 (y / 2), base y)
  lowest g law base (suc x) y =
      let half = suc x / 2 in
      omega (
        arith,
        law (suc x) y,
        law half (y / 2),
        stable half (y / 2) x half (omega arith) (omega arith),
      )

zero-bit_or : (y : ℕ) → bit_or 0 y ≡ y
zero-bit_or y = bit_or-bitwise 0 y

and_lowest : (x y : ℕ) → bit_and x y ≡ min (x % 2) (y % 2) + 2 * bit_and (x / 2) (y / 2)
and_lowest = lowest (λ y. 0) min bit_and bit_and-bitwise (λ y. omega arith)

or_lowest : (x y : ℕ) → bit_or x y ≡ max (x % 2) (y % 2) + 2 * bit_or (x / 2) (y / 2)
or_lowest = lowest (λ y. y) max bit_or bit_or-bitwise (λ y. omega arith)

double_half : (m : ℕ) → m * 2 / 2 ≡ m
double_half m = omega arith

odd_half : (m : ℕ) → (m * 2 + 1) / 2 ≡ m
odd_half m = omega arith

-- One digit of the mask, on the right.
and_one : (a m : ℕ) → bit_and a (m * 2 + 1) ≡ bit_and (a / 2) m * 2 + a % 2
and_one a m = omega (arith, and_lowest a (m * 2 + 1), ap (bit_and (a / 2)) (odd_half m))

and_zero : (a m : ℕ) → bit_and a (m * 2) ≡ bit_and (a / 2) m * 2
and_zero a m = omega (arith, and_lowest a (m * 2), ap (bit_and (a / 2)) (double_half m))

-- One digit of the left number over a zero on the right.
or_zero : (a m : ℕ) → bit_or a (m * 2) ≡ bit_or (a / 2) m * 2 + a % 2
or_zero a m = omega (arith, or_lowest a (m * 2), ap (bit_or (a / 2)) (double_half m))

zero_or : (a m : ℕ) → bit_or (m * 2) a ≡ bit_or m (a / 2) * 2 + a % 2
zero_or a m = omega (arith, or_lowest (m * 2) a, ap (λ (k : ℕ). bit_or k (a / 2)) (double_half m))

-- Eight halvings, and eight doublings, are a byte.
halves : (a : ℕ) → a / 2 / 2 / 2 / 2 / 2 / 2 / 2 / 2 ≡ a / 256
halves a = omega arith

doubles : (m : ℕ) → m * 256 ≡ m * 2 * 2 * 2 * 2 * 2 * 2 * 2 * 2
doubles m = omega arith

odd_doubles :
    (m : ℕ)
    → m * 256 + 255
      ≡ (((((((m * 2 + 1) * 2 + 1) * 2 + 1) * 2 + 1) * 2 + 1) * 2 + 1) * 2 + 1) * 2 + 1
odd_doubles m = omega arith

-- A mask whose lowest byte is 0xff keeps the lowest byte, and one whose lowest byte is 0 drops it.
pub and_byte_ones : (a m : ℕ) → bit_and a (m * 256 + 255) ≡ bit_and (a / 256) m * 256 + a % 256
and_byte_ones a m = rw (odd_doubles m) (simp (and_one, halves) (omega arith))

pub and_byte_zeros : (a m : ℕ) → bit_and a (m * 256) ≡ bit_and (a / 256) m * 256
and_byte_zeros a m = rw (doubles m) (simp (and_zero, halves) (omega arith))

-- Where one number has a zero byte, `bit_or` has the byte of the other.
pub or_byte_zeros : (a m : ℕ) → bit_or a (m * 256) ≡ bit_or (a / 256) m * 256 + a % 256
or_byte_zeros a m = rw (doubles m) (simp (or_zero, halves) (omega arith))

pub zeros_or_byte : (a m : ℕ) → bit_or (m * 256) a ≡ bit_or m (a / 256) * 256 + a % 256
zeros_or_byte a m = rw (doubles m) (simp (zero_or, halves) (omega arith))

nothing_below : (bound x : ℕ) → x ≤ bound → bit_and x 0 ≡ 0
nothing_below bound zero h = bit_and-bitwise 0 0
nothing_below zero (suc x) h = absurd (omega arith)
nothing_below (suc bound) (suc x) h =
    omega (arith, and_lowest (suc x) 0, nothing_below bound (suc x / 2) (omega arith))

bit_and-zero : (x : ℕ) → bit_and x 0 ≡ 0
bit_and-zero x = nothing_below x x (omega arith)

-- The four masks of `transform_nonce`.
pub and_ff00ff00 :
    (u : ℕ) → bit_and u 0xff00ff00 ≡ u / 256 % 256 * 2 ^ 8 + u / 256 / 256 / 256 % 256 * 2 ^ 24
and_ff00ff00 u = omega (
  arith,
  and_byte_zeros u 0xff00ff,
  and_byte_ones (u / 256) 0xff00,
  and_byte_zeros (u / 256 / 256) 0xff,
  and_byte_ones (u / 256 / 256 / 256) 0,
  bit_and-zero (u / 256 / 256 / 256 / 256),
)

pub and_00ff00ff : (u : ℕ) → bit_and u 0x00ff00ff ≡ u % 256 + u / 256 / 256 % 256 * 2 ^ 16
and_00ff00ff u = omega (
  arith,
  and_byte_ones u 0xff00,
  and_byte_zeros (u / 256) 0xff,
  and_byte_ones (u / 256 / 256) 0,
  bit_and-zero (u / 256 / 256 / 256),
)

pub and_ffff : (u : ℕ) → bit_and u 0xffff ≡ u % 2 ^ 16
and_ffff u =
    omega (arith, and_byte_ones u 0xff, and_byte_ones (u / 256) 0, bit_and-zero (u / 256 / 256))

pub and_ffffffff : (u : ℕ) → bit_and u 0xffffffff ≡ u % 2 ^ 32
and_ffffffff u = omega (
  arith,
  and_byte_ones u 0xffffff,
  and_byte_ones (u / 256) 0xffff,
  and_byte_ones (u / 256 / 256) 0xff,
  and_byte_ones (u / 256 / 256 / 256) 0,
  bit_and-zero (u / 256 / 256 / 256 / 256),
)

-- `bit_or` of numbers whose bytes do not meet is their sum.
pub or_interleaved :
    (a b c d : ℕ)
    → a < 256
    → b < 256
    → c < 256
    → d < 256
    → bit_or (b + d * 2 ^ 16) ((a + c * 2 ^ 16) * 256) ≡ b + a * 2 ^ 8 + d * 2 ^ 16 + c * 2 ^ 24
or_interleaved a b c d ha hb hc hd =
    let e₁ : (b + d * 2 ^ 16) / 256 ≡ d * 256 = omega arith in
    let e₂ : (a + c * 2 ^ 16) / 256 ≡ c * 256 = omega arith in
    let e₃ : d / 256 ≡ 0 = omega arith in
    omega (
      arith,
      or_byte_zeros (b + d * 2 ^ 16) (a + c * 2 ^ 16),
      ap (λ (x : ℕ). bit_or x (a + c * 2 ^ 16)) e₁,
      zeros_or_byte (a + c * 2 ^ 16) d,
      ap (bit_or d) e₂,
      or_byte_zeros d c,
      ap (λ (x : ℕ). bit_or x c) e₃,
      zero-bit_or c,
    )

pub or_halves : (h l : ℕ) → h < 2 ^ 16 → bit_or h (l * 2 ^ 16) ≡ h + l * 2 ^ 16
or_halves h l p =
    let e₁ : l * 2 ^ 16 ≡ l * 256 * 256 = omega arith in
    let e₂ : h / 256 / 256 ≡ 0 = omega arith in
    omega (
      arith,
      ap (bit_or h) e₁,
      or_byte_zeros h (l * 256),
      or_byte_zeros (h / 256) l,
      ap (λ (x : ℕ). bit_or x l) e₂,
      zero-bit_or l,
    )
