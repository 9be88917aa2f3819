-- ===== src/Polling/Values.antt =====
-- The values in the dictionaries that the cloud client hands out, with what Python makes of them:
-- truth, equality, `str`, and `_to_bool` of custom_components/ezviz_hp7/binary_sensor.py. A text is
-- the list of its code points; a number has a sign and a size; other objects are not in them.
use ezviz_hp.Base.{
  ℕ, ◌+◌, Bool, true, false, not, ◌&&◌, ◌||◌, none, some, List, [], ◌∷◌, leb, ◌==◌, if◌then◌else◌,
  ◌≡◌, refl, ap, map, arith,
}
use ezviz_hp.Base.Bytes.{Bytes, equal, equal_refl, equal_sound}
use ezviz_hp.Base.Text.{codes, decimal}
use ezviz_hp.Base.Dict.{Dict, lookup}
use ezviz_hp.Base.{String}

pub data Value : Type 0 where
  null : Value
  flag : Bool → Value
  number : Bool → ℕ → Value
  text : Bytes → Value

-- `d.get(k)`
unfoldable pub get : String → Dict Value → Value
get k d = elim (lookup k d) [ none ↦ null | some v ↦ v ]

-- `if v:`
unfoldable pub truthy : Value → Bool
truthy null = false
truthy (flag b) = b
truthy (number negative n) = not (n == 0)
truthy (text []) = false
truthy (text (c ∷ cs)) = true

same_flag : Bool → Bool → Bool
same_flag true b = b
same_flag false b = not b

-- `a == b` of two values of the same kind, and false of two kinds
unfoldable pub same : Value → Value → Bool
unfolding same_flag
same null null = true
same (flag a) (flag b) = same_flag a b
same (number p a) (number q b) = a == b && (a == 0 || same_flag p q)
same (text a) (text b) = equal a b
same _ _ = false

-- white space of ASCII
is_space : ℕ → Bool
is_space c = c == 32 || (leb 9 c && leb c 13)

lstrip : Bytes → Bytes
unfolding is_space
lstrip [] = []
lstrip (c ∷ cs) = let rest = lstrip cs in if is_space c then rest else c ∷ cs

reverse_onto : Bytes → Bytes → Bytes
reverse_onto acc [] = acc
reverse_onto acc (c ∷ cs) = reverse_onto (c ∷ acc) cs

-- `text.strip()`
unfoldable pub strip : Bytes → Bytes
unfolding lstrip reverse_onto
strip cs = reverse_onto [] (lstrip (reverse_onto [] (lstrip cs)))

-- `text.lower()` on ASCII
lower : Bytes → Bytes
lower = map (λ c. if leb b'A' c && leb c b'Z' then c + 32 else c)

-- `text in texts`
unfoldable pub member : Bytes → List Bytes → Bool
member x [] = false
member x (y ∷ ys) = equal x y || member x ys

-- `_to_bool`
unfoldable pub to_bool : Value → Bool
unfolding strip lower
to_bool null = false
to_bool (flag b) = b
to_bool (number negative n) = not (n == 0)
to_bool (text cs) =
    member (lower (strip cs)) (codes "1" ∷ codes "true" ∷ codes "on" ∷ codes "yes" ∷ codes "y" ∷ [])

-- `str(v)` of a text or a number
unfoldable pub str : Value → Bytes
str null = codes "None"
str (flag true) = codes "True"
str (flag false) = codes "False"
str (number true n) = if n == 0 then decimal n else b'-' ∷ decimal n
str (number false n) = decimal n
str (text cs) = cs

pub same_refl : (v : Value) → same v v ≡ true
unfolding same same_flag
same_refl null = refl
same_refl (flag true) = refl
same_refl (flag false) = refl
same_refl (number true n) = ground arith
same_refl (number false n) = ground arith
same_refl (text cs) = equal_refl cs

pub same-text : (v : Value) (xs : Bytes) → same v (text xs) ≡ true → v ≡ text xs
unfolding same
same-text null xs h = cc
same-text (flag b) xs h = cc
same-text (number p n) xs h = cc
same-text (text a) xs h = ap text (equal_sound a xs h)

to_bool_run : to_bool (text (codes " Yes\n")) ≡ true
unfolding to_bool member equal
to_bool_run = refl
