-- ===== src/Relay/Snapshot/Keyframe.antt =====
-- `_rfind_last_keyframe` of tcp_relay.py: it finds the last marker, and what its bytes are.
use ezviz_hp.Base.{
  ℕ, ◌≤◌, true, Option, none, some, [], ◌∷◌, ◌≡◌, ◌⊎◌, inl, inr, refl, arith, max, drop, get_or,
}
use ezviz_hp.Base.Bytes.{Bytes}
use ezviz_hp.Base.Search.{is_prefix, rfind, rfind_sound, rfind-last, max_found}
use ezviz_hp.Cpd7.Decoder.Keyframe.{starts_keyframe}
use ezviz_hp.Relay.Buffer.{rfind_last_keyframe, hevc_vps_4b, hevc_vps_3b, h264_sps_4b, h264_sps_3b}

max_found-cases : (a b : Option ℕ) (i : ℕ) → max_found a b ≡ some i → (a ≡ some i) ⊎ (b ≡ some i)
max_found-cases none b i h = inr h
max_found-cases (some x) none i h = inl h
max_found-cases (some x) (some y) i h = ground arith

-- a result of one search or the other at `j` or after it
max_found-le :
    (a b : Option ℕ) (j : ℕ)
    → ((i : ℕ) × (a ≡ some i) × (j ≤ i)) ⊎ ((i : ℕ) × (b ≡ some i) × (j ≤ i))
    → (i : ℕ) × (max_found a b ≡ some i) × (j ≤ i)
max_found-le none b j (inl (i, e, l)) = absurd (cc)
max_found-le none b j (inr h) = h
max_found-le (some x) none j (inl h) = h
max_found-le (some x) none j (inr (i, e, l)) = absurd (cc)
max_found-le (some x) (some y) j (inl (i, e, l)) = (max x y, refl, ground arith)
max_found-le (some x) (some y) j (inr (i, e, l)) = (max x y, refl, ground arith)

pub rfind_last_keyframe_sound :
    (b : Bytes) (i : ℕ) → rfind_last_keyframe b ≡ some i → starts_keyframe (drop i b) ≡ true
unfolding rfind_last_keyframe starts_keyframe
rfind_last_keyframe_sound b i h = ground (
  arith,
  max_found-cases (rfind hevc_vps_4b b)
      (max_found (rfind hevc_vps_3b b) (max_found (rfind h264_sps_4b b) (rfind h264_sps_3b b))) i,
  max_found-cases (rfind hevc_vps_3b b) (max_found (rfind h264_sps_4b b) (rfind h264_sps_3b b)) i,
  max_found-cases (rfind h264_sps_4b b) (rfind h264_sps_3b b) i,
  rfind_sound 0x00 (0x00 ∷ 0x00 ∷ 0x01 ∷ 0x40 ∷ 0x01 ∷ []) b i,
  rfind_sound 0x00 (0x00 ∷ 0x01 ∷ 0x40 ∷ 0x01 ∷ []) b i,
  rfind_sound 0x00 (0x00 ∷ 0x00 ∷ 0x01 ∷ 0x67 ∷ []) b i,
  rfind_sound 0x00 (0x00 ∷ 0x01 ∷ 0x67 ∷ []) b i,
)

-- which of the four markers stands at the front
starts_keyframe-cases :
    (xs : Bytes)
    → starts_keyframe xs ≡ true
    → (is_prefix hevc_vps_4b xs ≡ true)
      ⊎ ((is_prefix hevc_vps_3b xs ≡ true)
          ⊎ ((is_prefix h264_sps_4b xs ≡ true) ⊎ (is_prefix h264_sps_3b xs ≡ true)))
unfolding starts_keyframe
starts_keyframe-cases xs h = ground arith

pub rfind_last_keyframe-last :
    (b : Bytes) (j : ℕ)
    → starts_keyframe (drop j b) ≡ true
    → (i : ℕ) × (rfind_last_keyframe b ≡ some i) × (j ≤ i)
unfolding rfind_last_keyframe
rfind_last_keyframe-last b j h =
    let v3 = rfind hevc_vps_3b b in
    let s4 = rfind h264_sps_4b b in
    let s3 = rfind h264_sps_3b b in
    let in_v4 = max_found-le (rfind hevc_vps_4b b) (max_found v3 (max_found s4 s3)) j in
    let in_v3 = max_found-le v3 (max_found s4 s3) j in
    let in_s = max_found-le s4 s3 j in
    elim (starts_keyframe-cases (drop j b) h) [
      | inl e ↦ in_v4 (inl (rfind-last _ _ b j e))
      | inr (inl e) ↦ in_v4 (inr (in_v3 (inl (rfind-last _ _ b j e))))
      | inr (inr (inl e)) ↦ in_v4 (inr (in_v3 (inr (in_s (inl (rfind-last _ _ b j e))))))
      | inr (inr (inr e)) ↦ in_v4 (inr (in_v3 (inr (in_s (inr (rfind-last _ _ b j e))))))
    ]

-- Every marker begins with two zeros.
pub starts_keyframe-zeros :
    (xs : Bytes) → starts_keyframe xs ≡ true → (get_or xs 0 0 ≡ 0) × (get_or xs 1 0 ≡ 0)
unfolding starts_keyframe is_prefix
starts_keyframe-zeros [] h = (refl, refl)
starts_keyframe-zeros (a ∷ []) h = (ground arith, refl)
starts_keyframe-zeros (a ∷ b ∷ xs) h = (ground arith, ground arith)
