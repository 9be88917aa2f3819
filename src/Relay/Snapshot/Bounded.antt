-- ===== src/Relay/Snapshot/Bounded.antt =====
-- The ring buffer of tcp_relay.py against one that is never trimmed.
use ezviz_hp.Base.{
  ℕ, ◌+◌, ◌-◌, ◌≤◌, ◌<◌, true, none, some, [], ◌++◌, ◌≡◌, ◌⊎◌, inl, inr, sym, ap, ◌∙◌, arith,
  length, take, drop, get_or, get_or-drop, drop-append, take-append, drop-take, drop-drop,
  append_assoc, append-nil, ltb, Bool-cases,
}
use ezviz_hp.Base.Bytes.{Bytes}
use ezviz_hp.Base.Search.{
  is_prefix, rfind, rfind_sound, rfind-last, shift, is_prefix-append, is_prefix-take, is_prefix_cut,
  get_or-prefix,
}
use ezviz_hp.Cpd7.Decoder.Keyframe.{starts_keyframe, starts_keyframe-append}
use ezviz_hp.Cpd7.Decoder.Gate.{keyframe_inside}
use ezviz_hp.Relay.Buffer.{
  rfind_last_keyframe, start_at, snapshot_buffer, trim_buffer, extend_buffer, mpeg_ps_pack,
  buffer_trim_target,
}
use ezviz_hp.Relay.Snapshot.{
  rfind_last_keyframe-drop, start_at-cases, start_at-before, pack-drop, snapshot_at, trim-cases,
}
use ezviz_hp.Relay.Snapshot.Keyframe.{
  rfind_last_keyframe_sound, rfind_last_keyframe-last, starts_keyframe-zeros,
}

-- A pack header before a keyframe marker ends before it, since the bytes of both differ.
pack_ends :
    (b : Bytes) (p kf : ℕ)
    → is_prefix mpeg_ps_pack (drop p b) ≡ true
    → starts_keyframe (drop kf b) ≡ true
    → p < kf
    → p + 4 ≤ kf
pack_ends b p kf h k lt =
    let (z₀, z₁) = starts_keyframe-zeros (drop kf b) k in
    let one : get_or b (p + 2) 0 ≡ 1 =
      sym (get_or-drop p 2 b 0) ∙ get_or-prefix mpeg_ps_pack (drop p b) 2 h (omega arith) in
    let last : get_or b (p + 3) 0 ≡ 0xba =
      sym (get_or-drop p 3 b 0) ∙ get_or-prefix mpeg_ps_pack (drop p b) 3 h (omega arith) in
    let zero_at : get_or b (kf + 0) 0 ≡ 0 = sym (get_or-drop kf 0 b 0) ∙ z₀ in
    let next : get_or b (kf + 1) 0 ≡ 0 = sym (get_or-drop kf 1 b 0) ∙ z₁ in
    let at : (i j : ℕ) → i ≡ j → get_or b i 0 ≡ get_or b j 0 =
      λ i j e. ap (λ (k : ℕ). get_or b k 0) e in
    let where_kf : (p + 4 ≤ kf) ⊎ ((kf + 1 ≡ p + 2) ⊎ ((kf + 0 ≡ p + 2) ⊎ (kf + 0 ≡ p + 3))) =
      omega arith in
    elim where_kf [
      | inl far ↦ far
      | inr (inl e) ↦ absurd (cc (one, next, at (kf + 1) (p + 2) e))
      | inr (inr (inl e)) ↦ absurd (cc (one, zero_at, at (kf + 0) (p + 2) e))
      | inr (inr (inr e)) ↦ absurd (cc (last, zero_at, at (kf + 0) (p + 3) e))
    ]

-- A pack header in the part before a place, and what `rfind` makes of it.
pack_found :
    (b : Bytes) (p kf : ℕ)
    → is_prefix mpeg_ps_pack (drop p b) ≡ true
    → p + 4 ≤ kf
    → (i : ℕ) × (rfind mpeg_ps_pack (take kf b) ≡ some i) × (p ≤ i)
pack_found b p kf h l = rfind-last _ _ (take kf b) p (
    ap (is_prefix mpeg_ps_pack) (drop-take p kf b)
    ∙ is_prefix_cut mpeg_ps_pack (drop p b) (kf - p) h (omega (arith, l)))

pack_sound :
    (b : Bytes) (p kf : ℕ)
    → rfind mpeg_ps_pack (take kf b) ≡ some p
    → is_prefix mpeg_ps_pack (drop p b) ≡ true
pack_sound b p kf e =
    is_prefix-take mpeg_ps_pack (drop p b) (kf - p)
      (ap (is_prefix mpeg_ps_pack) (sym (drop-take p kf b)) ∙ rfind_sound _ _ (take kf b) p e)

module _ (b more : Bytes) (kf : ℕ) (e : rfind_last_keyframe b ≡ some kf) where
  abbrev whole : Bytes
  whole = b ++ more

  inside : kf < length b
  inside = keyframe_inside b kf (rfind_last_keyframe_sound b kf e)

  keyframe_in_whole : starts_keyframe (drop kf whole) ≡ true
  keyframe_in_whole =
      ap starts_keyframe (drop-append kf b more (omega (arith, inside)))
      ∙ starts_keyframe-append (drop kf b) more (rfind_last_keyframe_sound b kf e)

  -- In the whole, no last pack header before the last keyframe lies before the cut.
  cut-le : (k p : ℕ) → kf ≤ k → rfind mpeg_ps_pack (take k whole) ≡ some p → start_at b kf ≤ p
  cut-le k p le f = elim (start_at-cases b kf) [
    | inr (pack, g, s, lt) ↦
        let h = pack_sound b pack kf g in
        let ends = pack_ends b pack kf h (rfind_last_keyframe_sound b kf e) lt in
        let there =
          ap (is_prefix mpeg_ps_pack) (drop-append pack b more (omega (arith, lt, inside)))
          ∙ is_prefix-append mpeg_ps_pack (drop pack b) more h in
        let (i, at, l) = pack_found whole pack k there (omega (arith, ends, le)) in
        let same : some i ≡ some p = sym at ∙ f in let eq : i ≡ p = cc in omega (arith, s, l, eq)
    | inl (g, s) ↦
        let order : (kf ≤ p) ⊎ (p < kf) = omega arith in
        elim order [
          | inl late ↦ omega (arith, s, late)
          | inr early ↦
              let h = pack_sound whole p k f in
              let ends = pack_ends whole p kf h keyframe_in_whole early in
              let (i, at, l) = pack_found whole p kf h ends in
              let same = ap (rfind mpeg_ps_pack) (take-append kf b more (omega (arith, inside))) in
              absurd (cc (at, same, g))
        ]
  ]

  -- The cut part and the whole start a snapshot at the same place.
  start_at-cut :
      (k : ℕ)
      → kf ≤ k
      → start_at b kf + start_at (drop (start_at b kf) whole) (k - start_at b kf) ≡ start_at whole k
  start_at-cut k le =
      let n = start_at b kf in
      let early = start_at-before b kf in
      elim (start_at-cases whole k) [
        | inl (g, s) ↦
            let none_there : rfind mpeg_ps_pack (take (k - n) (drop n whole)) ≡ none =
              pack-drop n k whole ∙ ap (shift n) g in
            let at : start_at (drop n whole) (k - n) ≡ k - n =
              unfold start_at in rw (none_there, start_at) in
            omega (arith, s, at, early, le)
        | inr (p, g, s, lt) ↦
            let order = cut-le k p le g in
            let here : shift n (some p) ≡ some (p - n) = ground (arith, order) in
            let there : rfind mpeg_ps_pack (take (k - n) (drop n whole)) ≡ some (p - n) =
              pack-drop n k whole ∙ ap (shift n) g ∙ here in
            let at : start_at (drop n whole) (k - n) ≡ p - n =
              unfold start_at in rw (there, start_at) in
            omega (arith, s, at, order)
      ]

  snapshot-cut : snapshot_buffer (drop (start_at b kf) b ++ more) ≡ snapshot_buffer whole
  snapshot-cut =
      let n = start_at b kf in
      let early = start_at-before b kf in
      let (k, last, le) = rfind_last_keyframe-last whole kf keyframe_in_whole in
      let there : shift n (some k) ≡ some (k - n) = ground (arith, early, le) in
      ap snapshot_buffer (sym (drop-append n b more (omega (arith, early, inside))))
      ∙ snapshot_at (drop n whole) (k - n)
          (rfind_last_keyframe-drop n whole ∙ ap (shift n) last ∙ there)
      ∙ drop-drop (start_at (drop n whole) (k - n)) n whole
      ∙ ap (λ (m : ℕ). drop m whole) (start_at-cut k le)
      ∙ sym (snapshot_at whole k last)

-- Trimming shows in no later snapshot.
trim-more : (b more : Bytes) → snapshot_buffer (trim_buffer b ++ more) ≡ snapshot_buffer (b ++ more)
trim-more b more = elim (trim-cases b) [
  | inl e ↦ ap (λ x. snapshot_buffer (x ++ more)) e
  | inr (kf, e, t) ↦ ap (λ x. snapshot_buffer (x ++ more)) t ∙ snapshot-cut b more kf e
]

-- Two buffers that show the same to every viewer, now and later.
abbrev pub Alike : Bytes → Bytes → Type 0
Alike b c = (more : Bytes) → snapshot_buffer (b ++ more) ≡ snapshot_buffer (c ++ more)

-- The bounded buffer is like the one that keeps everything.
pub extend-Alike :
    (b all plain : Bytes) → Alike b all → Alike (extend_buffer b plain) (all ++ plain)
unfolding extend_buffer
extend-Alike b all plain h more =
    let kept =
      ap snapshot_buffer (append_assoc b plain more)
      ∙ h (plain ++ more)
      ∙ ap snapshot_buffer (sym (append_assoc all plain more)) in
    elim (Bool-cases (ltb buffer_trim_target (length (b ++ plain)))) [
      | inl long ↦ rw long (trim-more (b ++ plain) more ∙ kept)
      | inr short ↦ rw short kept
    ]

pub Alike-snapshot : (b all : Bytes) → Alike b all → snapshot_buffer b ≡ snapshot_buffer all
Alike-snapshot b all h =
    ap snapshot_buffer (sym (append-nil b)) ∙ h [] ∙ ap snapshot_buffer (append-nil all)
