-- ===== src/Base/Lists.antt =====
-- Lists measured and cut by native numbers, under the library's names.
use Prim.Native.Nat.{ℕ, zero, suc, ◌+◌, ◌-◌, ◌≤◌, ◌<◌, min}
use mathlib.Core.Path.{◌≡◌, refl, sym, ap, ap₂, ◌∙◌}
use mathlib.Core.List.{List, [], ◌∷◌, ◌++◌}
use native.Mathlib.Omega.{arith}

add-suc_left : (n m : ℕ) → suc n + m ≡ suc (n + m)
add-suc_left n m = omega arith

sub-suc-suc : (n m : ℕ) → suc n - suc m ≡ n - m
sub-suc-suc n m = omega arith

module _ {ℓ} {A : Type ℓ} where
  abbrev pub length : List A → ℕ
  length [] = 0
  length (x ∷ xs) = suc (length xs)

  abbrev pub get_or : List A → ℕ → A → A
  get_or [] i d = d
  get_or (x ∷ xs) zero d = x
  get_or (x ∷ xs) (suc i) d = get_or xs i d

  abbrev pub take : ℕ → List A → List A
  take zero xs = []
  take (suc n) [] = []
  take (suc n) (x ∷ xs) = x ∷ take n xs

  abbrev pub drop : ℕ → List A → List A
  drop zero xs = xs
  drop (suc n) [] = []
  drop (suc n) (x ∷ xs) = drop n xs

  abbrev pub replicate : ℕ → A → List A
  replicate zero a = []
  replicate (suc n) a = a ∷ replicate n a

  -- `xs[a:b]`
  abbrev pub slice : ℕ → ℕ → List A → List A
  slice a b xs = take (b - a) (drop a xs)

  pub length-append : (xs ys : List A) → length (xs ++ ys) ≡ length xs + length ys
  length-append [] ys = omega arith
  length-append (x ∷ xs) ys = omega (arith, length-append xs ys)

module _ {ℓ} {A : Type ℓ} where
  pub length-take : (n : ℕ) (xs : List A) → length (take n xs) ≡ min n (length xs)
  length-take zero xs = omega arith
  length-take (suc n) [] = omega arith
  length-take (suc n) (x ∷ xs) = omega (arith, length-take n xs)

  pub length-drop : (n : ℕ) (xs : List A) → length (drop n xs) ≡ length xs - n
  length-drop zero xs = omega arith
  length-drop (suc n) [] = omega arith
  length-drop (suc n) (x ∷ xs) = omega (arith, length-drop n xs)

  pub take-append-drop : (n : ℕ) (xs : List A) → take n xs ++ drop n xs ≡ xs
  take-append-drop zero xs = refl
  take-append-drop (suc n) [] = refl
  take-append-drop (suc n) (x ∷ xs) = rw (take-append-drop n xs)

  pub take-length : (n : ℕ) (xs : List A) → length xs ≤ n → take n xs ≡ xs
  take-length zero [] h = refl
  take-length zero (x ∷ xs) h = absurd (omega arith)
  take-length (suc n) [] h = refl
  take-length (suc n) (x ∷ xs) h = ap (◌∷◌ x) (take-length n xs (omega arith))

  pub drop-length : (n : ℕ) (xs : List A) → length xs ≤ n → drop n xs ≡ []
  drop-length zero [] h = refl
  drop-length zero (x ∷ xs) h = absurd (omega arith)
  drop-length (suc n) [] h = refl
  drop-length (suc n) (x ∷ xs) h = drop-length n xs (omega arith)

  -- A cut inside the first part leaves the second whole.
  pub take-append : (n : ℕ) (xs ys : List A) → n ≤ length xs → take n (xs ++ ys) ≡ take n xs
  take-append zero xs ys h = refl
  take-append (suc n) [] ys h = absurd (omega arith)
  take-append (suc n) (x ∷ xs) ys h = ap (◌∷◌ x) (take-append n xs ys (omega arith))

  pub drop-append : (n : ℕ) (xs ys : List A) → n ≤ length xs → drop n (xs ++ ys) ≡ drop n xs ++ ys
  drop-append zero xs ys h = refl
  drop-append (suc n) [] ys h = absurd (omega arith)
  drop-append (suc n) (x ∷ xs) ys h = drop-append n xs ys (omega arith)

  pub take-append_exact : (n : ℕ) (xs ys : List A) → length xs ≡ n → take n (xs ++ ys) ≡ xs
  take-append_exact zero [] ys h = refl
  take-append_exact zero (x ∷ xs) ys h = absurd (omega arith)
  take-append_exact (suc n) [] ys h = absurd (omega arith)
  take-append_exact (suc n) (x ∷ xs) ys h = ap (◌∷◌ x) (take-append_exact n xs ys (omega arith))

  pub drop-append_exact : (n : ℕ) (xs ys : List A) → length xs ≡ n → drop n (xs ++ ys) ≡ ys
  drop-append_exact zero [] ys h = refl
  drop-append_exact zero (x ∷ xs) ys h = absurd (omega arith)
  drop-append_exact (suc n) [] ys h = absurd (omega arith)
  drop-append_exact (suc n) (x ∷ xs) ys h = drop-append_exact n xs ys (omega arith)

  pub take-nil : (n : ℕ) → take {A = A} n [] ≡ []
  take-nil zero = refl
  take-nil (suc n) = refl

  pub drop-nil : (n : ℕ) → drop {A = A} n [] ≡ []
  drop-nil zero = refl
  drop-nil (suc n) = refl

  pub drop-drop : (m n : ℕ) (xs : List A) → drop m (drop n xs) ≡ drop (n + m) xs
  drop-drop m zero xs = ap (λ (k : ℕ). drop k xs) (omega arith)
  drop-drop m (suc n) [] = drop-nil m ∙ sym (drop-nil (suc n + m))
  drop-drop m (suc n) (x ∷ xs) = rw add-suc_left (drop-drop m n xs)

  -- `xs[:b][a:]` is `xs[a:b]`.
  pub drop-take : (a b : ℕ) (xs : List A) → drop a (take b xs) ≡ take (b - a) (drop a xs)
  drop-take zero b xs = ap (λ (k : ℕ). take k xs) (omega arith)
  drop-take (suc a) zero xs = ap (λ (k : ℕ). take k (drop (suc a) xs)) {x = 0} (omega arith)
  drop-take (suc a) (suc b) [] = rw take-nil
  drop-take (suc a) (suc b) (x ∷ xs) = rw sub-suc-suc (drop-take a b xs)

  pub get_or-append :
      (xs ys : List A) (i : ℕ) (d : A) → i < length xs → get_or (xs ++ ys) i d ≡ get_or xs i d
  get_or-append [] ys i d h = absurd (omega arith)
  get_or-append (x ∷ xs) ys zero d h = refl
  get_or-append (x ∷ xs) ys (suc i) d h = get_or-append xs ys i d (omega arith)

  pub get_or-drop : (n i : ℕ) (xs : List A) (d : A) → get_or (drop n xs) i d ≡ get_or xs (n + i) d
  get_or-drop zero i xs d = ap (λ (k : ℕ). get_or xs k d) (omega arith)
  get_or-drop (suc n) i [] d = refl
  get_or-drop (suc n) i (x ∷ xs) d =
      get_or-drop n i xs d ∙ ap (λ (k : ℕ). get_or (x ∷ xs) k d) (sym (add-suc_left n i))

  pub slice-append :
      (a b : ℕ) (xs ys : List A) → a ≤ b → b ≤ length xs → slice a b (xs ++ ys) ≡ slice a b xs
  slice-append a b xs ys p q =
      rw (drop-append a xs ys (omega arith))
        (take-append (b - a) (drop a xs) ys (omega (arith, length-drop a xs)))

  pub length-slice : (a b : ℕ) (xs : List A) → length (slice a b xs) ≡ min (b - a) (length xs - a)
  length-slice a b xs = omega (arith, length-take (b - a) (drop a xs), length-drop a xs)

  -- A slice behind a part of length `m`, and the slice that is a whole part.
  pub slice-skip :
      (m a b : ℕ) (xs ys : List A) → length xs ≡ m → slice (m + a) (m + b) (xs ++ ys) ≡ slice a b ys
  slice-skip m a b xs ys e =
      ap₂ (λ (k : ℕ) zs. take k zs) {x = m + b - (m + a)} (omega arith)
        (sym (drop-drop a m (xs ++ ys)) ∙ ap (drop a) (drop-append_exact m xs ys e))

  pub slice_front : (n : ℕ) (xs ys : List A) → length xs ≡ n → slice 0 n (xs ++ ys) ≡ xs
  slice_front n xs ys e =
      ap (λ (k : ℕ). take k (xs ++ ys)) {x = n - 0} (omega arith) ∙ take-append_exact n xs ys e

  -- A whole part in the middle.
  pub slice_part :
      (a n : ℕ) (xs part ys : List A)
      → length xs ≡ a
      → length part ≡ n
      → slice a (a + n) (xs ++ (part ++ ys)) ≡ part
  slice_part a n xs part ys e p =
      ap (λ (k : ℕ). slice k (a + n) (xs ++ (part ++ ys))) {y = a + 0} (omega arith)
      ∙ slice-skip a 0 n xs (part ++ ys) e
      ∙ slice_front n part ys p

  -- A cut behind the first part.
  pub take-append_more :
      (a : ℕ) (xs ys : List A) → take (length xs + a) (xs ++ ys) ≡ xs ++ take a ys
  take-append_more a [] ys = ap (λ (k : ℕ). take k ys) {x = 0 + a} (omega arith)
  take-append_more a (x ∷ xs) ys =
      ap (λ (k : ℕ). take k (x ∷ xs ++ ys)) (add-suc_left (length xs) a)
      ∙ ap (◌∷◌ x) (take-append_more a xs ys)

  pub drop-append_more : (a : ℕ) (xs ys : List A) → drop (length xs + a) (xs ++ ys) ≡ drop a ys
  drop-append_more a [] ys = ap (λ (k : ℕ). drop k ys) {x = 0 + a} (omega arith)
  drop-append_more a (x ∷ xs) ys =
      ap (λ (k : ℕ). drop k (x ∷ xs ++ ys)) (add-suc_left (length xs) a) ∙ drop-append_more a xs ys
