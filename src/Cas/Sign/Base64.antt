-- ===== src/Cas/Sign/Base64.antt =====
-- The base64 of cas.py: what was encoded without padding is decoded once it is padded.
use ezviz_hp.Base.{
  ℕ, suc, ◌+◌, ◌*◌, ◌/◌, ◌%◌, ◌-◌, ◌<◌, true, false, some, [], ◌∷◌, ◌++◌, ltb, ◌==◌, if◌then◌else◌,
  length, replicate, ◌≡◌, refl, ap, ap₂, ◌∙◌, arith,
}
use ezviz_hp.Base.Bytes.{Bytes, AreBytes}
use ezviz_hp.Cas.Sign.{
  value_of, Quad, first, second, third, fourth, with_value, emit, decode_from, are_ascii,
  urlsafe_b64decode, pad,
}

-- the character of a value
abbrev pub char_of : ℕ → ℕ
char_of v =
    if ltb v 26
    then v + 65
    else if ltb v 52
    then v + 71
    else if ltb v 62
    then v - 4
    else if v == 62
    then b'-'
    else b'_'

-- the base64 of some bytes, in the alphabet for addresses and without padding
unfoldable pub encode : Bytes → Bytes
encode [] = []
encode (a ∷ []) = char_of (a / 4) ∷ char_of (a % 4 * 16) ∷ []
encode (a ∷ b ∷ []) = char_of (a / 4) ∷ char_of (a % 4 * 16 + b / 16) ∷ char_of (b % 16 * 4) ∷ []
encode (a ∷ b ∷ c ∷ xs) =
    char_of (a / 4)
    ∷ char_of (a % 4 * 16 + b / 16)
    ∷ char_of (b % 16 * 4 + c / 64)
    ∷ char_of (c % 64)
    ∷ encode xs

value-char : (v : ℕ) → v < 64 → value_of (char_of v) ≡ some v
unfolding value_of
value-char v h = ground (arith, h)

char-ne-pad : (v : ℕ) → (char_of v == b'=') ≡ false
char-ne-pad v = ground arith

pub char-ne-dot : (v : ℕ) → (char_of v == b'.') ≡ false
char-ne-dot v = ground arith

decode_step :
    (q : Quad) (pads c v : ℕ) (cs : Bytes)
    → (c == b'=') ≡ false
    → value_of c ≡ some v
    → decode_from q pads (c ∷ cs) ≡ emit (with_value q v).0 (decode_from (with_value q v).1 0 cs)
unfolding decode_from
decode_step q pads c v cs h k = ground (arith, h, k)

decode-char :
    (q : Quad) (pads v : ℕ) (cs : Bytes)
    → v < 64
    → decode_from q pads (char_of v ∷ cs)
      ≡ emit (with_value q v).0 (decode_from (with_value q v).1 0 cs)
decode-char q pads v cs h = decode_step q pads (char_of v) v cs (char-ne-pad v) (value-char v h)

two_pads : (t : ℕ) → decode_from (third t) 0 (b'=' ∷ b'=' ∷ []) ≡ some []
unfolding decode_from
two_pads t = refl

one_pad : (t : ℕ) → decode_from (fourth t) 0 (b'=' ∷ []) ≡ some []
unfolding decode_from
one_pad t = refl

-- What one byte makes of the group: its bits come from two characters.
decode_byte_1 :
    (a t w : ℕ) (cs : Bytes)
    → a < 256
    → t < 16
    → w ≡ a % 4 * 16 + t
    → decode_from first 0 (char_of (a / 4) ∷ char_of w ∷ cs)
      ≡ emit (some a) (decode_from (third t) 0 cs)
unfolding with_value emit
decode_byte_1 a t w cs h k e =
    let byte : a / 4 * 4 + w / 16 ≡ a = omega (arith, e) in
    let left : w % 16 ≡ t = omega (arith, e) in
    decode-char first 0 (a / 4) (char_of w ∷ cs) (omega arith)
    ∙ decode-char (second (a / 4)) 0 w cs (omega (arith, e))
    ∙ ap₂ (λ x l. emit (some x) (decode_from (third l) 0 cs)) byte left

decode_byte_2 :
    (b t w : ℕ) (cs : Bytes)
    → b < 256
    → t < 4
    → w ≡ b % 16 * 4 + t
    → decode_from (third (b / 16)) 0 (char_of w ∷ cs) ≡ emit (some b) (decode_from (fourth t) 0 cs)
unfolding with_value emit
decode_byte_2 b t w cs h k e =
    let byte : b / 16 * 16 + w / 4 ≡ b = omega (arith, e) in
    let left : w % 4 ≡ t = omega (arith, e) in
    decode-char (third (b / 16)) 0 w cs (omega (arith, e))
    ∙ ap₂ (λ x l. emit (some x) (decode_from (fourth l) 0 cs)) byte left

decode_byte_3 :
    (c : ℕ) (cs : Bytes)
    → c < 256
    → decode_from (fourth (c / 64)) 0 (char_of (c % 64) ∷ cs)
      ≡ emit (some c) (decode_from first 0 cs)
unfolding with_value
decode_byte_3 c cs h =
    let byte : c / 64 * 64 + c % 64 ≡ c = omega arith in
    decode-char (fourth (c / 64)) 0 (c % 64) cs (omega arith)
    ∙ ap (λ x. emit (some x) (decode_from first 0 cs)) byte

-- the padding that fills the last group
abbrev pads_of : Bytes → Bytes
pads_of [] = []
pads_of (a ∷ []) = b'=' ∷ b'=' ∷ []
pads_of (a ∷ b ∷ []) = b'=' ∷ []
pads_of (a ∷ b ∷ c ∷ xs) = pads_of xs

decode-encode : (xs : Bytes) → AreBytes xs → decode_from first 0 (encode xs ++ pads_of xs) ≡ some xs
unfolding encode with_value emit
decode-encode [] h = unfold decode_from in refl
decode-encode (a ∷ []) h =
    decode_byte_1 a 0 (a % 4 * 16) _ h.0 (omega arith) (omega arith)
    ∙ ap (emit (some a)) (two_pads 0)
decode-encode (a ∷ b ∷ []) h =
    decode_byte_1 a (b / 16) (a % 4 * 16 + b / 16) _ h.0 (omega (arith, h.1.0)) refl
    ∙ ap (emit (some a)) (
        decode_byte_2 b 0 (b % 16 * 4) _ h.1.0 (omega arith) (omega arith)
        ∙ ap (emit (some b)) (one_pad 0))
decode-encode (a ∷ b ∷ c ∷ xs) h =
    decode_byte_1 a (b / 16) (a % 4 * 16 + b / 16) _ h.0 (omega (arith, h.1.0)) refl
    ∙ ap (emit (some a)) (
        decode_byte_2 b (c / 64) (b % 16 * 4 + c / 64) _ h.1.0 (omega (arith, h.1.1.0)) refl
        ∙ ap (emit (some b)) (
            decode_byte_3 c (encode xs ++ pads_of xs) h.1.1.0
            ∙ ap (emit (some c)) (decode-encode xs h.1.1.1)))

are_ascii-char : (v : ℕ) (cs : Bytes) → are_ascii (char_of v ∷ cs) ≡ are_ascii cs
unfolding are_ascii
are_ascii-char v cs = ground arith

are_ascii-encode : (xs : Bytes) → are_ascii (encode xs ++ pads_of xs) ≡ true
unfolding encode
are_ascii-encode [] = unfold are_ascii in refl
are_ascii-encode (a ∷ []) =
    are_ascii-char (a / 4) _ ∙ are_ascii-char (a % 4 * 16) _ ∙ (unfold are_ascii in refl)
are_ascii-encode (a ∷ b ∷ []) =
    are_ascii-char (a / 4) _
    ∙ are_ascii-char (a % 4 * 16 + b / 16) _
    ∙ are_ascii-char (b % 16 * 4) _
    ∙ (unfold are_ascii in refl)
are_ascii-encode (a ∷ b ∷ c ∷ xs) =
    are_ascii-char (a / 4) _
    ∙ are_ascii-char (a % 4 * 16 + b / 16) _
    ∙ are_ascii-char (b % 16 * 4 + c / 64) _
    ∙ are_ascii-char (c % 64) _
    ∙ are_ascii-encode xs

length-pads : (xs : Bytes) → replicate ((4 - length (encode xs) % 4) % 4) b'=' ≡ pads_of xs
unfolding encode
length-pads [] = refl
length-pads (a ∷ []) = refl
length-pads (a ∷ b ∷ []) = refl
length-pads (a ∷ b ∷ c ∷ xs) =
    let same : (4 - suc (suc (suc (suc (length (encode xs))))) % 4) % 4
        ≡ (4 - length (encode xs) % 4) % 4 =
      omega arith in
    ap (λ n. replicate n b'=') same ∙ length-pads xs

pub decode-pad : (xs : Bytes) → AreBytes xs → urlsafe_b64decode (pad (encode xs)) ≡ some xs
unfolding pad urlsafe_b64decode
decode-pad xs h =
    ap (λ ps. urlsafe_b64decode (encode xs ++ ps)) (length-pads xs)
    ∙ rw (are_ascii-encode xs) (decode-encode xs h)
