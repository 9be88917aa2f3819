-- ===== src/Cpd7/Decoder/Keyframe.antt =====
-- `_find_keyframe` of decoder.py: the first marker of a keyframe.
use ezviz_hp.Base.{
  ℕ, ◌<◌, Bool, true, false, ◌||◌, Option, none, some, [], ◌∷◌, ◌++◌, ◌≡◌, ◌⊎◌, inl, inr, refl,
  arith, Option-cases, drop, sym, ◌∙◌, ◌↔◌, lt→ltb,
}
use mathlib.Core.Bool.{false≢true}
use ezviz_hp.Base.Bytes.{Bytes}
use ezviz_hp.Base.Search.{
  is_prefix, find, find_sound, find-before, beyond, find-drop, find-append, is_prefix-append,
}
use ezviz_hp.Cpd7.Decoder.{
  find_keyframe, min_found, hevc_vps_4b, hevc_vps_3b, h264_sps_4b, h264_sps_3b,
}

-- A keyframe marker stands at the front.
unfoldable pub starts_keyframe : Bytes → Bool
starts_keyframe xs =
    is_prefix hevc_vps_4b xs
    || is_prefix hevc_vps_3b xs
    || is_prefix h264_sps_4b xs
    || is_prefix h264_sps_3b xs

min_found-cases : (a b : Option ℕ) (i : ℕ) → min_found a b ≡ some i → (a ≡ some i) ⊎ (b ≡ some i)
min_found-cases none b i h = inr h
min_found-cases (some x) none i h = inl h
min_found-cases (some x) (some y) i h = ground arith

min_found-none : (a b : Option ℕ) → min_found a b ≡ none → (a ≡ none) × (b ≡ none)
min_found-none none b h = (refl, h)
min_found-none (some x) none h = cc
min_found-none (some x) (some y) h = cc

beyond-min_found :
    (j : ℕ) (a b : Option ℕ)
    → beyond j (min_found a b) ≡ true
    → (beyond j a ≡ true) × (beyond j b ≡ true)
beyond-min_found j none b h = (refl, h)
beyond-min_found j (some x) none h = (h, refl)
beyond-min_found j (some x) (some y) h = ground arith

-- What `find_keyframe` returns is the place of a marker.
pub find_keyframe_sound :
    (buf : Bytes) (i : ℕ) → find_keyframe buf ≡ some i → starts_keyframe (drop i buf) ≡ true
unfolding find_keyframe starts_keyframe
find_keyframe_sound buf i h = ground (
  arith,
  min_found-cases (find hevc_vps_4b buf)
      (min_found (find hevc_vps_3b buf) (min_found (find h264_sps_4b buf) (find h264_sps_3b buf)))
      i,
  min_found-cases (find hevc_vps_3b buf) (min_found (find h264_sps_4b buf) (find h264_sps_3b buf))
      i,
  min_found-cases (find h264_sps_4b buf) (find h264_sps_3b buf) i,
  find_sound 0x00 (0x00 ∷ 0x00 ∷ 0x01 ∷ 0x40 ∷ 0x01 ∷ []) buf i,
  find_sound 0x00 (0x00 ∷ 0x01 ∷ 0x40 ∷ 0x01 ∷ []) buf i,
  find_sound 0x00 (0x00 ∷ 0x00 ∷ 0x01 ∷ 0x67 ∷ []) buf i,
  find_sound 0x00 (0x00 ∷ 0x01 ∷ 0x67 ∷ []) buf i,
)

-- There is no marker before it, and none at all where it fails.
pub find_keyframe-before :
    (buf : Bytes) (j : ℕ)
    → beyond j (find_keyframe buf) ≡ true
    → starts_keyframe (drop j buf) ≡ false
unfolding find_keyframe starts_keyframe
find_keyframe-before buf j h =
    let (h₁, t₁) = beyond-min_found j _ _ h in
    let (h₂, t₂) = beyond-min_found j _ _ t₁ in
    let (h₃, h₄) = beyond-min_found j _ _ t₂ in
    rw (
      find-before _ _ buf j h₁,
      find-before _ _ buf j h₂,
      find-before _ _ buf j h₃,
      find-before _ _ buf j h₄,
    )

-- `find_keyframe` finds the first place where a marker of either codec stands; it fails exactly
-- where there is none at all.
find_keyframe-first :
    (buf : Bytes)
    → ((i : ℕ)
        → find_keyframe buf ≡ some i
        → (starts_keyframe (drop i buf) ≡ true)
          × ((j : ℕ) → j < i → starts_keyframe (drop j buf) ≡ false))
      × ((find_keyframe buf ≡ none) ↔ ((j : ℕ) → starts_keyframe (drop j buf) ≡ false))
find_keyframe-first buf = (
  λ i e. (find_keyframe_sound buf i e, λ j lt. find_keyframe-before buf j (rw e (lt→ltb j i lt))),
  (
    λ e j. find_keyframe-before buf j (rw e),
    λ all. elim (Option-cases (find_keyframe buf)) [
      | inl e ↦ e
      | inr (i, e) ↦ absurd (false≢true (sym (all i) ∙ find_keyframe_sound buf i e))
    ],
  ),
)

-- A buffer with no marker has none behind a cut.
pub find_keyframe-drop :
    (buf : Bytes) (n : ℕ) → find_keyframe buf ≡ none → find_keyframe (drop n buf) ≡ none
unfolding find_keyframe
find_keyframe-drop buf n h =
    let (h₁, t₁) = min_found-none _ _ h in
    let (h₂, t₂) = min_found-none _ _ t₁ in
    let (h₃, h₄) = min_found-none _ _ t₂ in
    rw (
      find-drop _ _ buf n h₁,
      find-drop _ _ buf n h₂,
      find-drop _ _ buf n h₃,
      find-drop _ _ buf n h₄,
    )

-- A buffer with no marker has none in its beginning.
pub find_keyframe-append :
    (xs ys : Bytes) → find_keyframe (xs ++ ys) ≡ none → find_keyframe xs ≡ none
unfolding find_keyframe
find_keyframe-append xs ys h =
    let (h₁, t₁) = min_found-none _ _ h in
    let (h₂, t₂) = min_found-none _ _ t₁ in
    let (h₃, h₄) = min_found-none _ _ t₂ in
    rw (
      find-append _ _ xs ys h₁,
      find-append _ _ xs ys h₂,
      find-append _ _ xs ys h₃,
      find-append _ _ xs ys h₄,
    )

pub starts_keyframe-append :
    (xs ys : Bytes) → starts_keyframe xs ≡ true → starts_keyframe (xs ++ ys) ≡ true
unfolding starts_keyframe
starts_keyframe-append xs ys h = ground (
  arith,
  is_prefix-append hevc_vps_4b xs ys,
  is_prefix-append hevc_vps_3b xs ys,
  is_prefix-append h264_sps_4b xs ys,
  is_prefix-append h264_sps_3b xs ys,
)
