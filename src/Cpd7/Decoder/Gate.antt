-- ===== src/Cpd7/Decoder/Gate.antt =====
-- The keyframe gate of decoder.py: what `_absorb_plain` lets through, and the bound of its buffer.
use ezviz_hp.Base
use ezviz_hp.Base.{
  ℕ, ◌+◌, ◌-◌, ◌*◌, ◌/◌, ◌≤◌, ◌<◌, min, Bool, true, false, ◌||◌, Option, none, some, [], ◌∷◌, ◌++◌,
  ◌≡◌, ◌⊎◌, inl, inr, refl, arith, Bool-cases, Option-cases, ltb, leb, if◌then◌else◌, length, drop,
  length-drop, length-append, drop-append, length-take, drop-take, drop-drop, drop-length, ap, sym,
  ◌∙◌, ◌↔◌, lt→ltb,
}
use native.Mathlib.Decide.{dec_lt}
use ezviz_hp.Base.Bytes.{Bytes}
use ezviz_hp.Base.Search.{
  is_prefix, find, rfind, rfind_sound, rfind-lt-length, is_prefix-append, is_prefix-take,
}
use ezviz_hp.Cpd7.Ciphers.{Ciphers}
use ezviz_hp.Cpd7.Decoder.{
  StreamDecoder, new_decoder, absorb_plain, absorb_pending, find_keyframe, start_of_output, feed,
  mpeg_ps_pack, max_pack_lookback_before_kf, max_pre_keyframe_buf,
}
use ezviz_hp.Cpd7.Decoder.Keeps.{IsGate, keep_feed}
use ezviz_hp.Cpd7.Decoder.Keyframe.{
  starts_keyframe, find_keyframe_sound, find_keyframe-drop, starts_keyframe-append,
}

-- The output starts at a keyframe marker, or at an MPEG-PS pack header that stands at most
-- `max_pack_lookback_before_kf` bytes before one.
pub record IsGoodStart (out : Bytes) : Type 0 where
  pub keyframe_at : ℕ
  pub near : keyframe_at ≤ max_pack_lookback_before_kf
  pub inside : keyframe_at ≤ length out
  pub keyframe : starts_keyframe (drop keyframe_at out) ≡ true
  pub boundary : (keyframe_at ≡ 0) ⊎ (is_prefix mpeg_ps_pack out ≡ true)

IsGoodStart-append : (out plain : Bytes) → IsGoodStart out → IsGoodStart (out ++ plain)
IsGoodStart-append out plain g = record {
  keyframe_at = g.keyframe_at;
  near = g.near;
  inside = omega (arith, length-append out plain, g.inside);
  keyframe =
      rw (drop-append g.keyframe_at out plain g.inside)
        (starts_keyframe-append (drop g.keyframe_at out) plain g.keyframe);
  boundary = elim g.boundary [
    | inl e ↦ inl e
    | inr e ↦ inr (is_prefix-append mpeg_ps_pack out plain e)
  ];
}

starts_keyframe-nil : starts_keyframe [] ≡ false
unfolding starts_keyframe is_prefix
starts_keyframe-nil = refl

back_to : (a b : ℕ) → a ≤ b → a + (b - a) ≡ b
back_to a b h = omega arith

-- A marker lies in the buffer.
pub keyframe_inside : (buf : Bytes) (i : ℕ) → starts_keyframe (drop i buf) ≡ true → i < length buf
keyframe_inside buf i h = elim (dec_lt i (length buf)) [
  | yes p ↦ p
  | no p ↦ cc (h, ap starts_keyframe (drop-length i buf (omega arith)), starts_keyframe-nil)
]

IsGoodStart-keyframe :
    (buf : Bytes) (kf : ℕ) → starts_keyframe (drop kf buf) ≡ true → IsGoodStart (drop kf buf)
IsGoodStart-keyframe buf kf h = record {
  keyframe_at = 0;
  near = omega arith;
  inside = omega arith;
  keyframe = h;
  boundary = inl refl;
}

pack_at :
    (buf : Bytes) (kf pack : ℕ)
    → rfind mpeg_ps_pack (Base.take kf buf) ≡ some pack
    → (pack < kf) × (is_prefix mpeg_ps_pack (drop pack buf) ≡ true)
pack_at buf kf pack e = (
  omega (arith, rfind-lt-length _ _ (Base.take kf buf) pack e, length-take kf buf),
  is_prefix-take mpeg_ps_pack (drop pack buf) (kf - pack)
      (rw (← drop-take pack kf buf) (rfind_sound _ _ (Base.take kf buf) pack e)),
)

IsGoodStart-pack :
    (buf : Bytes) (kf pack : ℕ)
    → starts_keyframe (drop kf buf) ≡ true
    → rfind mpeg_ps_pack (Base.take kf buf) ≡ some pack
    → kf - pack ≤ max_pack_lookback_before_kf
    → IsGoodStart (drop pack buf)
IsGoodStart-pack buf kf pack h e near =
    let (lt, header) = pack_at buf kf pack e in
    record {
      keyframe_at = kf - pack;
      near = near;
      inside = omega (arith, length-drop pack buf, keyframe_inside buf kf h);
      keyframe = rw (drop-drop (kf - pack) pack buf) (rw (back_to pack kf (omega arith)) h);
      boundary = inr header;
    }

-- The place that `_absorb_plain` chooses is a good start.
pub start_of_output-IsGoodStart :
    (buf : Bytes) (kf : ℕ)
    → starts_keyframe (drop kf buf) ≡ true
    → IsGoodStart (drop (start_of_output buf kf) buf)
unfolding start_of_output
start_of_output-IsGoodStart buf kf h = elim (Option-cases (rfind mpeg_ps_pack (Base.take kf buf))) [
  | inl e ↦ rw (e, start_of_output) (IsGoodStart-keyframe buf kf h)
  | inr (pack, e) ↦ elim (Bool-cases (leb (kf - pack) max_pack_lookback_before_kf)) [
    | inl near ↦ rw (e, start_of_output, near) (IsGoodStart-pack buf kf pack h e (ground arith))
    | inr far ↦ rw (e, start_of_output, far) (IsGoodStart-keyframe buf kf h)
  ]
]

-- It lies in the buffer.
pub start_of_output-le :
    (buf : Bytes) (kf : ℕ) → find_keyframe buf ≡ some kf → start_of_output buf kf ≤ length buf
unfolding start_of_output
start_of_output-le buf kf f =
    let inside = keyframe_inside buf kf (find_keyframe_sound buf kf f) in
    elim (Option-cases (rfind mpeg_ps_pack (Base.take kf buf))) [
      | inl e ↦ rw (e, start_of_output) (omega (arith, inside))
      | inr (pack, e) ↦
          let lt = (pack_at buf kf pack e).0 in
          elim (Bool-cases (leb (kf - pack) max_pack_lookback_before_kf)) [
            | inl near ↦ rw (e, start_of_output, near) (omega (arith, inside, lt))
            | inr far ↦ rw (e, start_of_output, far) (omega (arith, inside))
          ]
    ]

-- Closed: nothing is out, and the bounded buffer holds no marker. Open: the output has a good start.
pub data GateInv {Priv : Type 0} (d : StreamDecoder Priv) : Type 0 where
  closed :
      d.mpeg_started ≡ false
      → d.out ≡ []
      → find_keyframe d.pending ≡ none
      → length d.pending ≤ max_pre_keyframe_buf
      → GateInv d
  opened : d.mpeg_started ≡ true → IsGoodStart d.out → d.pending ≡ [] → GateInv d

absorb_pending-GateInv :
    {Priv : Type 0} (d : StreamDecoder Priv) (buf : Bytes) (o : Option ℕ)
    → find_keyframe buf ≡ o
    → d.mpeg_started ≡ false
    → d.out ≡ []
    → GateInv (absorb_pending d buf o)
unfolding absorb_pending
absorb_pending-GateInv d buf (some kf) e m h =
    opened refl (rw h (start_of_output-IsGoodStart buf kf (find_keyframe_sound buf kf e))) refl
absorb_pending-GateInv d buf none e m h =
    elim (Bool-cases (ltb max_pre_keyframe_buf (length buf))) [
      | inl long ↦ rw long (
          closed m h (find_keyframe-drop buf (length buf - max_pre_keyframe_buf / 2) e)
            (omega (arith, length-drop (length buf - max_pre_keyframe_buf / 2) buf)))
      | inr short ↦ rw short (closed m h e (ground arith))
    ]

absorb_plain-GateInv :
    {Priv : Type 0} (d : StreamDecoder Priv) (plain : Bytes)
    → GateInv d
    → GateInv (absorb_plain d plain)
unfolding absorb_plain
absorb_plain-GateInv d plain (closed m h k b) =
    simp m
      (absorb_pending-GateInv d (d.pending ++ plain) (find_keyframe (d.pending ++ plain)) refl m h)
absorb_plain-GateInv d plain (opened m g k) =
    simp m (opened refl (IsGoodStart-append d.out plain g) k)

GateInv-other :
    {Priv : Type 0} (d : StreamDecoder Priv) (buf : Bytes) (key : Option Bytes)
    (first logged : Bool)
    → GateInv d
    → GateInv (record d {
      buf = buf;
      chacha20_key = key;
      first_chunk_consumed = first;
      first_decrypt_logged = logged;
    })
GateInv-other d buf key first logged (closed m h k b) = closed m h k b
GateInv-other d buf key first logged (opened m g k) = opened m g k

GateInv-IsGate : {Priv : Type 0} → IsGate (GateInv {Priv = Priv})
GateInv-IsGate = record { absorb = absorb_plain-GateInv; other = GateInv-other }

-- From a fresh decoder, whatever bytes are fed: either nothing has come out and at most
-- `max_pre_keyframe_buf` bytes with no marker are held, or the output has a good start and nothing
-- is held.
pub feed-GateInv :
    {Priv Pub : Type 0} (c : Ciphers Priv Pub) (priv : Priv) (x : Bytes)
    → GateInv (feed c (new_decoder priv) x)
feed-GateInv c priv x =
    keep_feed c GateInv-IsGate (new_decoder priv) x
      (closed refl refl (unfold find_keyframe find in refl) (omega arith))
