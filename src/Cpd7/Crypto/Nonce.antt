-- ===== src/Cpd7/Crypto/Nonce.antt =====
-- `transform_nonce` and `make_nonce_12b` of crypto.py.
use ezviz_hp.Base.{ℕ, ◌+◌, ◌*◌, ◌/◌, ◌^◌, ◌<◌, bit_and, bit_or, [], ◌∷◌, ◌≡◌, ap, ap₂, ◌∙◌, arith}
use ezviz_hp.Base.Bytes.{AreBytes, pack_le32}
use ezviz_hp.Cpd7.Crypto.{swap16, rol16, transform_nonce, make_nonce_12b}
use ezviz_hp.Cpd7.Crypto.Masks.{
  and_ff00ff00, and_00ff00ff, and_ffff, and_ffffffff, or_interleaved, or_halves,
}

-- The first swap exchanges the two bytes of each half.
swap16_lem :
    (a b c d : ℕ)
    → AreBytes (a ∷ b ∷ c ∷ d ∷ [])
    → swap16 (a + b * 2 ^ 8 + c * 2 ^ 16 + d * 2 ^ 24) ≡ b + a * 2 ^ 8 + d * 2 ^ 16 + c * 2 ^ 24
unfolding swap16
swap16_lem a b c d h =
    let u = a + b * 2 ^ 8 + c * 2 ^ 16 + d * 2 ^ 24 in
    let odd : bit_and u 0xff00ff00 / 2 ^ 8 ≡ b + d * 2 ^ 16 = omega (arith, and_ff00ff00 u) in
    let even : bit_and u 0x00ff00ff * 2 ^ 8 ≡ (a + c * 2 ^ 16) * 256 =
      omega (arith, and_00ff00ff u) in
    ap₂ bit_or odd even ∙ or_interleaved a b c d h.0 h.1.0 h.1.1.0 h.1.1.1.0

-- The second exchanges the halves.
rol16_lem : (h l : ℕ) → h < 2 ^ 16 → l < 2 ^ 16 → rol16 (l + h * 2 ^ 16) ≡ h + l * 2 ^ 16
unfolding rol16
rol16_lem h l p q =
    let u = l + h * 2 ^ 16 in
    let high : u / 2 ^ 16 ≡ h = omega arith in
    let low : bit_and (bit_and u 0xffff * 2 ^ 16) 0xffffffff ≡ l * 2 ^ 16 =
      omega (arith, and_ffff u, and_ffffffff (bit_and u 0xffff * 2 ^ 16)) in
    ap₂ bit_or high low ∙ or_halves h l p

regroup :
    (a b c d : ℕ)
    → b + a * 2 ^ 8 + d * 2 ^ 16 + c * 2 ^ 24 ≡ b + a * 2 ^ 8 + (d + c * 2 ^ 8) * 2 ^ 16
regroup a b c d = omega arith

pack_le32_bytes :
    (a b c d : ℕ)
    → AreBytes (a ∷ b ∷ c ∷ d ∷ [])
    → pack_le32 (a + b * 2 ^ 8 + (c + d * 2 ^ 8) * 2 ^ 16) ≡ a ∷ b ∷ c ∷ d ∷ []
pack_le32_bytes a b c d h = ground arith

-- The two swaps together turn the four bytes of the wire round: they do not cancel.
pub transform_nonce-reverse :
    (a b c d : ℕ)
    → AreBytes (a ∷ b ∷ c ∷ d ∷ [])
    → transform_nonce (a ∷ b ∷ c ∷ d ∷ []) ≡ d ∷ c ∷ b ∷ a ∷ []
unfolding transform_nonce
transform_nonce-reverse a b c d h =
    let whole : rol16 (swap16 (a + b * 2 ^ 8 + c * 2 ^ 16 + d * 2 ^ 24))
        ≡ d + c * 2 ^ 8 + (b + a * 2 ^ 8) * 2 ^ 16 =
      ap rol16 (swap16_lem a b c d h)
      ∙ ap rol16 (regroup a b c d)
      ∙ rol16_lem (d + c * 2 ^ 8) (b + a * 2 ^ 8) (omega arith) (omega arith) in
    ap pack_le32 whole ∙ pack_le32_bytes d c b a (omega arith)

-- The nonce of twelve bytes: the wire bytes turned round, and eight zeros.
make_nonce_12b-bytes :
    (a b c d : ℕ)
    → AreBytes (a ∷ b ∷ c ∷ d ∷ [])
    → make_nonce_12b (a ∷ b ∷ c ∷ d ∷ []) ≡ d ∷ c ∷ b ∷ a ∷ 0 ∷ 0 ∷ 0 ∷ 0 ∷ 0 ∷ 0 ∷ 0 ∷ 0 ∷ []
unfolding make_nonce_12b
make_nonce_12b-bytes a b c d h = rw (transform_nonce-reverse a b c d h)
