-- ===== src/Base/Search.antt =====
-- `bytes.startswith`, `bytes.find` and `bytes.rfind` of Python; `none` stands for the result -1.
use mathlib.Core.Option
use ezviz_hp.Base.Tests.{ltb, leb, if◌then◌else◌, ◌==◌, Option-cases, ltb→lt}
use ezviz_hp.Base.Lists.{length, get_or, take, drop, drop-nil}
use Prim.Native.Nat.{ℕ, zero, suc, ◌-◌, ◌<◌, ◌≤◌, max}
use mathlib.Core.Path.{◌≡◌, refl}
use mathlib.Core.Bool.{Bool, true, false, ◌&&◌}
use mathlib.Core.Option.{Option, none, some}
use mathlib.Core.Logic.{inl, inr}
use mathlib.Core.List.{List, [], ◌∷◌, ◌++◌}
use native.Mathlib.Omega.{arith}

-- `xs.startswith(pat)`
unfoldable pub is_prefix : List ℕ → List ℕ → Bool
is_prefix [] xs = true
is_prefix (p ∷ pat) [] = false
is_prefix (p ∷ pat) (x ∷ xs) = p == x && is_prefix pat xs

-- `xs.find(pat)`
unfoldable pub find : List ℕ → List ℕ → Option ℕ
unfolding is_prefix
find pat [] = if is_prefix pat [] then some 0 else none
find pat (x ∷ xs) = if is_prefix pat (x ∷ xs) then some 0 else Option.map suc (find pat xs)

-- `xs.rfind(pat)`
unfoldable pub rfind : List ℕ → List ℕ → Option ℕ
unfolding is_prefix
rfind pat [] = if is_prefix pat [] then some 0 else none
rfind pat (x ∷ xs) = elim (rfind pat xs) [
  | some i ↦ some (suc i)
  | none ↦ if is_prefix pat (x ∷ xs) then some 0 else none
]

-- Where a position of `xs` lies in `xs[n:]`.
abbrev pub shift : ℕ → Option ℕ → Option ℕ
shift n none = none
shift n (some i) = if leb n i then some (i - n) else none

-- The larger of two results of a search, with -1 below every position.
abbrev pub max_found : Option ℕ → Option ℕ → Option ℕ
max_found none b = b
max_found (some i) none = some i
max_found (some i) (some j) = some (max i j)

pub shift-max_found :
    (n : ℕ) (a b : Option ℕ) → shift n (max_found a b) ≡ max_found (shift n a) (shift n b)
shift-max_found n none b = refl
shift-max_found n (some i) none = ground arith
shift-max_found n (some i) (some j) = ground arith

shift_zero : (o : Option ℕ) → shift 0 o ≡ o
shift_zero none = refl
shift_zero (some i) = ground arith

module _ (p : ℕ) (pat : List ℕ) where
  find_nil : find (p ∷ pat) [] ≡ none
  unfolding find
  find_nil = refl

  -- What `find` returns is an occurrence.
  pub find_sound :
      (xs : List ℕ) (i : ℕ) → find (p ∷ pat) xs ≡ some i → is_prefix (p ∷ pat) (drop i xs) ≡ true
  unfolding find is_prefix
  find_sound [] i h = cc
  find_sound (x ∷ xs) zero h = ground arith
  find_sound (x ∷ xs) (suc i) h = ground (arith, find_sound xs i)

  -- There is none before it.
  pub find-least :
      (xs : List ℕ) (i j : ℕ)
      → find (p ∷ pat) xs ≡ some i
      → j < i
      → is_prefix (p ∷ pat) (drop j xs) ≡ false
  unfolding find is_prefix
  find-least [] i j h lt = cc
  find-least (x ∷ xs) zero j h lt = absurd (omega arith)
  find-least (x ∷ xs) (suc i) zero h lt = ground arith
  find-least (x ∷ xs) (suc i) (suc j) h lt = ground (arith, find-least xs i j)

  -- Where `find` fails there is no occurrence.
  pub find-none :
      (xs : List ℕ) (j : ℕ) → find (p ∷ pat) xs ≡ none → is_prefix (p ∷ pat) (drop j xs) ≡ false
  unfolding find is_prefix
  find-none [] j h = rw (drop-nil j)
  find-none (x ∷ xs) zero h = ground arith
  find-none (x ∷ xs) (suc j) h = ground (arith, find-none xs j)

  -- What `rfind` returns is an occurrence.
  pub rfind_sound :
      (xs : List ℕ) (i : ℕ) → rfind (p ∷ pat) xs ≡ some i → is_prefix (p ∷ pat) (drop i xs) ≡ true
  unfolding rfind is_prefix
  rfind_sound [] i h = cc
  rfind_sound (x ∷ xs) zero h = ground arith
  rfind_sound (x ∷ xs) (suc i) h = ground (arith, rfind_sound xs i)

  -- A found position lies in the string.
  pub rfind-lt-length : (xs : List ℕ) (i : ℕ) → rfind (p ∷ pat) xs ≡ some i → i < length xs
  unfolding rfind is_prefix
  rfind-lt-length [] i h = cc
  rfind-lt-length (x ∷ xs) zero h = omega arith
  rfind-lt-length (x ∷ xs) (suc i) h = ground (arith, rfind-lt-length xs i)

  -- Searching a suffix from the right finds the same place, if it lies in the suffix.
  pub rfind-drop :
      (n : ℕ) (xs : List ℕ) → rfind (p ∷ pat) (drop n xs) ≡ shift n (rfind (p ∷ pat) xs)
  unfolding rfind is_prefix
  rfind-drop zero xs = ground (arith, shift_zero (rfind (p ∷ pat) xs))
  rfind-drop (suc n) [] = refl
  rfind-drop (suc n) (x ∷ xs) = ground (arith, rfind-drop n xs)

-- No result of a search at `j` or before it.
abbrev pub beyond : ℕ → Option ℕ → Bool
beyond j none = true
beyond j (some i) = ltb j i

module _ (p : ℕ) (pat : List ℕ) where
  -- There is no occurrence before the result of `find`, and none at all where it fails.
  pub find-before :
      (xs : List ℕ) (j : ℕ)
      → beyond j (find (p ∷ pat) xs) ≡ true
      → is_prefix (p ∷ pat) (drop j xs) ≡ false
  find-before xs j h = elim (Option-cases (find (p ∷ pat) xs)) [
    | inl e ↦ find-none p pat xs j e
    | inr (i, e) ↦ find-least p pat xs i j e (ltb→lt j i (rw e at h))
  ]

  pub find-drop :
      (xs : List ℕ) (n : ℕ) → find (p ∷ pat) xs ≡ none → find (p ∷ pat) (drop n xs) ≡ none
  unfolding find
  find-drop xs zero h = h
  find-drop [] (suc n) h = h
  find-drop (x ∷ xs) (suc n) h = find-drop xs n (ground arith)

pub is_prefix-append :
    (pat xs ys : List ℕ) → is_prefix pat xs ≡ true → is_prefix pat (xs ++ ys) ≡ true
unfolding is_prefix
is_prefix-append [] xs ys h = refl
is_prefix-append (p ∷ pat) [] ys h = cc
is_prefix-append (p ∷ pat) (x ∷ xs) ys h = ground (arith, is_prefix-append pat xs ys)

-- Where a string has no occurrence, its beginning has none.
pub find-append :
    (p : ℕ) (pat xs ys : List ℕ) → find (p ∷ pat) (xs ++ ys) ≡ none → find (p ∷ pat) xs ≡ none
unfolding find
find-append p pat [] ys h = unfold is_prefix in refl
find-append p pat (x ∷ xs) ys h =
    ground (arith, find-append p pat xs ys, is_prefix-append (p ∷ pat) (x ∷ xs) ys)

-- An occurrence in a cut is one in the whole.
pub is_prefix-take :
    (pat xs : List ℕ) (n : ℕ) → is_prefix pat (take n xs) ≡ true → is_prefix pat xs ≡ true
unfolding is_prefix
is_prefix-take [] xs n h = refl
is_prefix-take (p ∷ pat) xs zero h = cc
is_prefix-take (p ∷ pat) [] (suc n) h = cc
is_prefix-take (p ∷ pat) (x ∷ xs) (suc n) h = ground (arith, is_prefix-take pat xs n)

-- A beginning that is long enough has the pattern too.
pub is_prefix_cut :
    (pat xs : List ℕ) (n : ℕ)
    → is_prefix pat xs ≡ true
    → length pat ≤ n
    → is_prefix pat (take n xs) ≡ true
unfolding is_prefix
is_prefix_cut [] xs n h l = refl
is_prefix_cut (p ∷ pat) [] n h l = cc
is_prefix_cut (p ∷ pat) (x ∷ xs) zero h l = absurd (omega arith)
is_prefix_cut (p ∷ pat) (x ∷ xs) (suc n) h l = ground (arith, is_prefix_cut pat xs n)

-- A pattern gives the bytes at its places.
pub get_or-prefix :
    (pat xs : List ℕ) (j : ℕ)
    → is_prefix pat xs ≡ true
    → j < length pat
    → get_or xs j 0 ≡ get_or pat j 0
unfolding is_prefix
get_or-prefix [] xs j h l = absurd (omega arith)
get_or-prefix (p ∷ pat) [] j h l = cc
get_or-prefix (p ∷ pat) (x ∷ xs) zero h l = ground arith
get_or-prefix (p ∷ pat) (x ∷ xs) (suc j) h l = get_or-prefix pat xs j (ground arith) (omega arith)

-- `rfind` returns no place before an occurrence.
pub rfind-last :
    (p : ℕ) (pat xs : List ℕ) (j : ℕ)
    → is_prefix (p ∷ pat) (drop j xs) ≡ true
    → (i : ℕ) × (rfind (p ∷ pat) xs ≡ some i) × (j ≤ i)
unfolding rfind
rfind-last p pat [] j h = absurd (unfold is_prefix in cc (h, drop-nil {A = ℕ} j))
rfind-last p pat (x ∷ xs) zero h = elim (Option-cases (rfind (p ∷ pat) xs)) [
  | inl e ↦ (0, rw (e, rfind, h), omega arith)
  | inr (i, e) ↦ (suc i, rw (e, rfind), omega arith)
]
rfind-last p pat (x ∷ xs) (suc j) h =
    let (i, e, l) = rfind-last p pat xs j h in (suc i, rw (e, rfind), omega (arith, l))
