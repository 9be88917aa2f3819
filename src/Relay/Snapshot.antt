-- ===== src/Relay/Snapshot.antt =====
-- What a new viewer gets from the buffer of tcp_relay.py, before and after trimming.
pub mod Keyframe
pub mod Bounded
use ezviz_hp.Base.{
  ℕ, ◌-◌, ◌≤◌, ◌<◌, none, some, [], ◌∷◌, ◌≡◌, ◌⊎◌, inl, inr, sym, ap, ◌∙◌, arith, ltb, take, drop,
  Option-cases, Bool-cases, drop-take, length-take,
}
use ezviz_hp.Base.Bytes.{Bytes}
use ezviz_hp.Base.Search.{rfind, shift, shift-max_found, rfind-drop, rfind-lt-length}
use ezviz_hp.Relay.Buffer.{
  rfind_last_keyframe, start_at, snapshot_buffer, trim_buffer, mpeg_ps_pack,
}

-- The last keyframe of a suffix.
rfind_last_keyframe-drop :
    (n : ℕ) (b : Bytes) → rfind_last_keyframe (drop n b) ≡ shift n (rfind_last_keyframe b)
unfolding rfind_last_keyframe
rfind_last_keyframe-drop n b = rw (
  shift-max_found,
  shift-max_found,
  shift-max_found,
  rfind-drop _ _ n b,
  rfind-drop _ _ n b,
  rfind-drop _ _ n b,
  rfind-drop _ _ n b,
)

-- Where a snapshot starts: at the last pack header before the keyframe, or at the keyframe.
start_at-cases :
    (b : Bytes) (kf : ℕ)
    → ((rfind mpeg_ps_pack (take kf b) ≡ none) × (start_at b kf ≡ kf))
      ⊎ ((pack : ℕ) × (rfind mpeg_ps_pack (take kf b) ≡ some pack)
          × (start_at b kf ≡ pack)
          × (pack < kf))
unfolding start_at
start_at-cases b kf = elim (Option-cases (rfind mpeg_ps_pack (take kf b))) [
  | inl e ↦ inl (e, rw (e, start_at))
  | inr (pack, e) ↦ inr (
    pack,
    e,
    rw (e, start_at),
    omega (arith, rfind-lt-length _ _ (take kf b) pack e, length-take kf b),
  )
]

start_at-before : (b : Bytes) (kf : ℕ) → start_at b kf ≤ kf
start_at-before b kf = elim (start_at-cases b kf) [
  | inl (e, s) ↦ omega (arith, s)
  | inr (pack, e, s, lt) ↦ omega (arith, s)
]

pack-drop :
    (n kf : ℕ) (b : Bytes)
    → rfind mpeg_ps_pack (take (kf - n) (drop n b)) ≡ shift n (rfind mpeg_ps_pack (take kf b))
pack-drop n kf b = ap (rfind mpeg_ps_pack) (sym (drop-take n kf b)) ∙ rfind-drop _ _ n (take kf b)

snapshot_at :
    (b : Bytes) (kf : ℕ)
    → rfind_last_keyframe b ≡ some kf
    → snapshot_buffer b ≡ drop (start_at b kf) b
unfolding snapshot_buffer
snapshot_at [] kf e = unfold rfind_last_keyframe rfind in cc
snapshot_at (x ∷ b) kf e = rw (e, snapshot_buffer)

-- Trimming changes nothing, or leaves the snapshot.
trim-cases :
    (b : Bytes)
    → (trim_buffer b ≡ b)
      ⊎ ((kf : ℕ) × (rfind_last_keyframe b ≡ some kf) × (trim_buffer b ≡ drop (start_at b kf) b))
unfolding trim_buffer
trim-cases b = elim (Option-cases (rfind_last_keyframe b)) [
  | inl e ↦ inl (rw (e, trim_buffer))
  | inr (kf, e) ↦ elim (Bool-cases (ltb kf 1024)) [
    | inl near ↦ inl (rw (e, trim_buffer, near))
    | inr far ↦ elim (Bool-cases (ltb 0 (start_at b kf))) [
      | inl later ↦ inr (kf, e, rw (e, trim_buffer, far, later))
      | inr first ↦ inl (rw (e, trim_buffer, far, first))
    ]
  ]
]
