-- ===== src/Relay/Buffer.antt =====
-- custom_components/ezviz_hp7/tcp_relay.py: the ring buffer of the relay.
use ezviz_hp.Base.{
  ℕ, ◌-◌, ◌*◌, Bool, false, Option, none, some, [], ◌∷◌, ◌++◌, ltb, leb, if◌then◌else◌, length,
  take, drop,
}
use ezviz_hp.Base.Bytes.{Bytes}
use ezviz_hp.Base.Search.{rfind, max_found}

abbrev pub buffer_trim_target : ℕ
buffer_trim_target = 4 * 1024 * 1024

abbrev pub keyframe_min_tail_bytes : ℕ
keyframe_min_tail_bytes = 64 * 1024

abbrev pub hevc_vps_4b : Bytes
hevc_vps_4b = 0x00 ∷ 0x00 ∷ 0x00 ∷ 0x01 ∷ 0x40 ∷ 0x01 ∷ []

abbrev pub hevc_vps_3b : Bytes
hevc_vps_3b = 0x00 ∷ 0x00 ∷ 0x01 ∷ 0x40 ∷ 0x01 ∷ []

abbrev pub h264_sps_4b : Bytes
h264_sps_4b = 0x00 ∷ 0x00 ∷ 0x00 ∷ 0x01 ∷ 0x67 ∷ []

abbrev pub h264_sps_3b : Bytes
h264_sps_3b = 0x00 ∷ 0x00 ∷ 0x01 ∷ 0x67 ∷ []

abbrev pub mpeg_ps_pack : Bytes
mpeg_ps_pack = 0x00 ∷ 0x00 ∷ 0x01 ∷ 0xba ∷ []

-- `_rfind_last_keyframe`; `none` stands for -1
unfoldable pub rfind_last_keyframe : Bytes → Option ℕ
rfind_last_keyframe buf =
    max_found (rfind hevc_vps_4b buf) (
      max_found (rfind hevc_vps_3b buf) (max_found (rfind h264_sps_4b buf) (rfind h264_sps_3b buf)))

-- `start` in the two functions below: the last pack header before the keyframe, or the keyframe
unfoldable pub start_at : Bytes → ℕ → ℕ
start_at b last_kf = elim (rfind mpeg_ps_pack (take last_kf b)) [
  | some pack ↦ pack
  | none ↦ last_kf
]

-- `_snapshot_buffer_for_new_client`
unfoldable pub snapshot_buffer : Bytes → Bytes
snapshot_buffer [] = []
snapshot_buffer (x ∷ b) = elim (rfind_last_keyframe (x ∷ b)) [
  | none ↦ x ∷ b
  | some last_kf ↦ drop (start_at (x ∷ b) last_kf) (x ∷ b)
]

-- `_trim_buffer_to_last_keyframe`: the buffer afterwards
unfoldable pub trim_buffer : Bytes → Bytes
trim_buffer b = elim (rfind_last_keyframe b) [
  | none ↦ b
  | some last_kf ↦
      if ltb last_kf 1024
      then b
      else if ltb 0 (start_at b last_kf)
      then drop (start_at b last_kf) b
      else b
]

-- what `_pump_upstream` does to the buffer with a plaintext that is not empty
unfoldable pub extend_buffer : Bytes → Bytes → Bytes
extend_buffer buffer plain =
    let extended = buffer ++ plain in
    if ltb buffer_trim_target (length extended) then trim_buffer extended else extended

-- the condition on which `_pump_upstream` sets `_keyframe_seen`
unfoldable pub has_complete_keyframe : Bytes → Bool
has_complete_keyframe buf = elim (rfind_last_keyframe buf) [
  | none ↦ false
  | some last_kf ↦ leb keyframe_min_tail_bytes (length buf - last_kf)
]
