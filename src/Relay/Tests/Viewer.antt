-- ===== src/Relay/Tests/Viewer.antt =====
-- A viewer of a running session, and the theorem at it.
use ezviz_hp.Base.{[], ◌∷◌, ◌++◌, List, ◌≡◌, refl}
use ezviz_hp.Base.Bytes.{Bytes}
use ezviz_hp.Base.Search.{is_prefix, rfind}
use ezviz_hp.Cpd7.Decoder.Segments.{concat}
use ezviz_hp.Relay.Buffer.{
  rfind_last_keyframe, start_at, snapshot_buffer, extend_buffer, has_complete_keyframe, h264_sps_3b,
  mpeg_ps_pack,
}
use ezviz_hp.Relay.Session.{
  is_pump_alive, connect, cancel_close, burst_after_wait, publish, pump_round,
}
use ezviz_hp.Relay.Session.Viewer.{watch, rounds, deliver, waited, IsView, watch-IsView}
use ezviz_hp.Relay.Tests.{watched, attempt}

-- Two pictures, with a byte before each pack header.
abbrev before : List Bytes
before =
    (7 ∷ (mpeg_ps_pack ++ (h264_sps_3b ++ (1 ∷ []))))
    ∷ (8 ∷ (mpeg_ps_pack ++ (h264_sps_3b ++ (2 ∷ []))))
    ∷ []

-- A byte comes while the burst is written, two afterwards.
watch_run :
    (watch attempt 3 [] ((4 ∷ []) ∷ []) ((5 ∷ []) ∷ (6 ∷ []) ∷ []) (rounds before watched)).0
    ≡ mpeg_ps_pack ++ (h264_sps_3b ++ (2 ∷ 5 ∷ 6 ∷ []))
unfolding watch connect is_pump_alive cancel_close burst_after_wait publish pump_round rounds
    deliver snapshot_buffer rfind_last_keyframe start_at extend_buffer has_complete_keyframe rfind
    is_prefix
watch_run = refl

watch-IsView_example :
    let so_far = concat before ++ concat (waited (snapshot_buffer (concat before)) []) in
    IsView 3
      (snapshot_buffer so_far ++ (5 ∷ 6 ∷ []))
      ((so_far ++ (4 ∷ [])) ++ (5 ∷ 6 ∷ []))
      (watch attempt 3 [] ((4 ∷ []) ∷ []) ((5 ∷ []) ∷ (6 ∷ []) ∷ []) (rounds before watched))
watch-IsView_example =
    watch-IsView attempt 3 before [] ((4 ∷ []) ∷ []) ((5 ∷ []) ∷ (6 ∷ []) ∷ []) watched refl refl
