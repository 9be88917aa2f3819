-- ===== src/Cas/Sign/Token.antt =====
-- The sign that cas.py takes from a token.
use ezviz_hp.Base.{
  ℕ, ◌+◌, ◌*◌, ◌/◌, ◌%◌, false, none, some, List, [], ◌∷◌, ◌++◌, ◌==◌, ◌≡◌, refl, ap, ◌∙◌, arith,
}
use ezviz_hp.Base.Bytes.{Bytes, All, AreBytes}
use ezviz_hp.Cas.Sign.{
  urlsafe_b64decode, pad, split_dots, Claim, no_dict, sign_or, sign_of, extract_sign_from_jwt,
}
use ezviz_hp.Cas.Sign.Base64.{char-ne-dot, encode, decode-pad}

abbrev pub NoDots : Bytes → Type 0
NoDots = All (λ c. (c == b'.') ≡ false)

split_step :
    (c : ℕ) (xs part : Bytes) (parts : List Bytes)
    → (c == b'.') ≡ false
    → split_dots xs ≡ part ∷ parts
    → split_dots (c ∷ xs) ≡ (c ∷ part) ∷ parts
unfolding split_dots
split_step c xs part parts h e = ground (arith, h, e)

split-append : (xs ys : Bytes) → NoDots xs → split_dots (xs ++ (b'.' ∷ ys)) ≡ xs ∷ split_dots ys
split-append [] ys h = unfold split_dots in refl
split-append (x ∷ xs) ys h =
    split_step x (xs ++ (b'.' ∷ ys)) xs (split_dots ys) h.0 (split-append xs ys h.1)

encode-NoDots : (xs : Bytes) → NoDots (encode xs)
unfolding encode
encode-NoDots [] = tt
encode-NoDots (a ∷ []) = (char-ne-dot (a / 4), (char-ne-dot (a % 4 * 16), tt))
encode-NoDots (a ∷ b ∷ []) =
    (char-ne-dot (a / 4), (char-ne-dot (a % 4 * 16 + b / 16), (char-ne-dot (b % 16 * 4), tt)))
encode-NoDots (a ∷ b ∷ c ∷ xs) = (
  char-ne-dot (a / 4),
  (
    char-ne-dot (a % 4 * 16 + b / 16),
    (char-ne-dot (b % 16 * 4 + c / 64), (char-ne-dot (c % 64), encode-NoDots xs)),
  ),
)

sign_of-decoded :
    (claim : Bytes → Claim) (raw header part json : Bytes) (parts : List Bytes)
    → urlsafe_b64decode (pad part) ≡ some json
    → sign_of claim raw (header ∷ part ∷ parts) ≡ sign_or raw (claim json)
unfolding sign_of
sign_of-decoded claim raw header part json parts e = rw (sign_of, e) refl

sign-claim :
    (claim : Bytes → Claim) (header payload signature : Bytes)
    → NoDots header
    → AreBytes payload
    → let raw = header ++ (b'.' ∷ (encode payload ++ (b'.' ∷ signature))) in
      extract_sign_from_jwt claim raw ≡ sign_or raw (claim payload)
unfolding extract_sign_from_jwt
sign-claim claim header payload signature h b =
    let raw = header ++ (b'.' ∷ (encode payload ++ (b'.' ∷ signature))) in
    let parts : split_dots raw ≡ header ∷ encode payload ∷ split_dots signature =
      split-append header _ h
      ∙ ap (λ ps. header ∷ ps) (split-append (encode payload) signature (encode-NoDots payload)) in
    ap (sign_of claim raw) parts
    ∙ sign_of-decoded claim raw header (encode payload) payload (split_dots signature)
        (decode-pad payload b)

-- A token of three parts with dots between, of which the second is the base64 of some bytes without
-- padding, and their claim is a text that is not empty: the sign is this text.
pub sign-token :
    (claim : Bytes → Claim) (header payload signature : Bytes) (c : ℕ) (cs : Bytes)
    → NoDots header
    → AreBytes payload
    → claim payload ≡ Claim.text (c ∷ cs)
    → extract_sign_from_jwt claim (header ++ (b'.' ∷ (encode payload ++ (b'.' ∷ signature))))
      ≡ some (c ∷ cs)
unfolding sign_or
sign-token claim header payload signature c cs h b e =
    sign-claim claim header payload signature h b
    ∙ ap (sign_or (header ++ (b'.' ∷ (encode payload ++ (b'.' ∷ signature))))) e

-- Where the bytes are no dictionary, an exception gets out.
sign_raises :
    (claim : Bytes → Claim) (header payload signature : Bytes)
    → NoDots header
    → AreBytes payload
    → claim payload ≡ no_dict
    → extract_sign_from_jwt claim (header ++ (b'.' ∷ (encode payload ++ (b'.' ∷ signature)))) ≡ none
unfolding sign_or
sign_raises claim header payload signature h b e =
    sign-claim claim header payload signature h b
    ∙ ap (sign_or (header ++ (b'.' ∷ (encode payload ++ (b'.' ∷ signature))))) e
