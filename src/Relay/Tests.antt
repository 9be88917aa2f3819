-- ===== src/Relay/Tests.antt =====
-- Runs of the relay of tcp_relay.py on small states, and the theorems at them.
mod Notify
mod Viewer
use ezviz_hp.Base.{
  ℕ, ◌≤◌, ◌<◌, true, false, none, some, List, [], ◌∷◌, ◌++◌, ◌≡◌, refl, arith, length, replicate,
  drop,
}
use ezviz_hp.Base.Bytes.{Bytes, equal}
use ezviz_hp.Base.Text.{codes}
use ezviz_hp.Base.Search.{rfind}
use ezviz_hp.Relay.Buffer.{
  mpeg_ps_pack, h264_sps_3b, rfind_last_keyframe, start_at, snapshot_buffer, trim_buffer,
  extend_buffer, has_complete_keyframe,
}
use ezviz_hp.Base.{◌⊎◌, ◌+◌}
use ezviz_hp.Cpd7.Ciphers.{Ciphers}
use ezviz_hp.Cpd7.Decoder.{
  new_decoder, feed, derive_keys, consume_one_chunk, drain, settle, handle_chunk,
  decrypt_data_chunk, nonce_12b, absorb_plain, find_keyframe, start_of_output, take,
}
use ezviz_hp.Cpd7.Decoder.Segments.{concat}
use ezviz_hp.Cpd7.Decoder.Gate.{IsGoodStart}
use ezviz_hp.Cpd7.Crypto.{transform_nonce}
use ezviz_hp.Base.Bytes.{equal}
use ezviz_hp.Base.Search.{find}
use ezviz_hp.Relay.Buffer.{buffer_trim_target}
use ezviz_hp.Relay.Session.{pump_ends}
use ezviz_hp.Relay.Pump.{pump_upstream, pump_upstream-Pumped}
use ezviz_hp.Relay.State.{Relay, Stats, no_task, alive, finished, Attempt, motion}
use ezviz_hp.Relay.Session.{
  is_pump_alive, connect, burst_after_wait, can_start, detach, teardown, timer, cancel_close,
  prewarm, reschedule_close, spin_up, started, pump_round, publish, maybe_close, without,
}
use ezviz_hp.Relay.Session.Step.{
  Event, step, run, prewarmed, connected, published, detached, received, timer_fired, stopped,
  time_passed,
}
use ezviz_hp.Relay.Session.Wellformed.{IsRelay, cold, is_open}
use ezviz_hp.Relay.Session.Events.{run-IsRelay}
use ezviz_hp.Relay.Session.Viewer.{rounds, wait_if_empty, leave}
use ezviz_hp.Relay.Session.Sockets.{Move, lans, step-Move}
use ezviz_hp.Relay.Session.Idle.{IsCold, has_open, teardown-IsCold, timer_lem}

abbrev two_pictures : Bytes
two_pictures = 7 ∷ (h264_sps_3b ++ (8 ∷ (mpeg_ps_pack ++ (9 ∷ (h264_sps_3b ++ (6 ∷ []))))))

snapshot_run : snapshot_buffer two_pictures ≡ mpeg_ps_pack ++ (9 ∷ (h264_sps_3b ++ (6 ∷ [])))
unfolding snapshot_buffer rfind_last_keyframe start_at rfind
snapshot_run = refl

abbrev no_stats : Stats
no_stats = record {
  prewarms_triggered = 0;
  prewarms_due_to_motion = 0;
  prewarms_due_to_alarm = 0;
  prewarms_skipped_already_warm = 0;
  lan_sessions_started = 0;
  lan_sessions_failed = 0;
  lan_session_total_bytes = 0;
  lan_session_total_seconds = 0;
  relay_clients_attached = 0;
  relay_clients_attached_warm = 0;
  errors_lan = 0;
  errors_relay_pump = 0;
}

-- `__init__`, at a clock that has moved
abbrev fresh : Relay
fresh = record {
  lan = none;
  pump = no_task;
  buffer = [];
  writer = none;
  close_at = none;
  keyframe_seen = false;
  session_started_at = 0;
  session_bytes = 0;
  stats = no_stats;
  now = 100;
  next_lan = 0;
  open_lans = [];
}

abbrev attempt : Attempt
attempt = record {
  host = codes "10.0.0.7";
  related = codes "BC1";
  aes_key = some (replicate 16 1);
  starts = true;
}

-- A prewarm, a viewer that comes and goes, and the timer.
abbrev events : List Event
events =
    prewarmed attempt 60 motion
    ∷ received two_pictures false
    ∷ connected attempt
    ∷ published 1
    ∷ detached 1
    ∷ time_passed 5
    ∷ timer_fired
    ∷ []

session_totals :
    let s = run events fresh in
    (s.lan ≡ none)
    × (s.open_lans ≡ [])
    × (s.stats.lan_session_total_bytes ≡ length two_pictures)
    × (s.stats.lan_session_total_seconds ≡ 5)
unfolding step prewarm reschedule_close spin_up started can_start equal is_pump_alive pump_round
    extend_buffer has_complete_keyframe rfind_last_keyframe rfind connect snapshot_buffer start_at
    cancel_close publish detach timer maybe_close teardown without
session_totals = (refl, refl, refl, refl)

run-IsRelay_example : IsRelay (run events fresh)
run-IsRelay_example = run-IsRelay events fresh (record {
  counted = record {
    skipped = omega arith;
    reasons = omega arith;
    warm = omega arith;
    failed = refl;
  };
  held = cold refl refl refl refl;
  sessions = refl;
})

step-Move_example : Move (lans fresh) (lans (step (connected attempt) fresh))
step-Move_example = step-Move fresh (connected attempt)

-- The camera has ended the first session.
abbrev ended : Relay
ended = record fresh { lan = some 0; pump = finished; next_lan = 1; open_lans = 0 ∷ [] }

attempt_starts : can_start attempt ≡ true
unfolding can_start equal
attempt_starts = refl

abbrev watched : Relay
watched = record fresh {
  lan = some 0;
  pump = alive;
  next_lan = 1;
  open_lans = 0 ∷ [];
  close_at = some 90;
}

teardown-IsCold_example :
    IsCold (teardown watched)
    × (has_open watched.lan (teardown watched).open_lans ≡ false)
    × (teardown (teardown watched) ≡ teardown watched)
teardown-IsCold_example = teardown-IsCold watched

watched_alive : is_pump_alive watched ≡ true
unfolding is_pump_alive
watched_alive = refl

-- A session with a picture to show.
abbrev warm : Relay
warm = record watched { buffer = two_pictures }

-- With nothing to show, and none to come, the viewer is published before it leaves, and the timer is set.
leave_run : (leave attempt 1 [] watched).close_at ≡ some 105
unfolding leave rounds connect is_pump_alive snapshot_buffer cancel_close wait_if_empty
    burst_after_wait detach publish reschedule_close
leave_run = refl

-- Keys are numbers, and the ciphers return their input.
abbrev toy : Ciphers ℕ ℕ
toy = record {
  load_der_public_key = λ der. some (length der);
  exchange = λ priv peer. some (priv ∷ peer ∷ []);
  aes_ecb_decrypt = λ key bytes. some (key ++ bytes);
  chacha20_decrypt = λ key nonce body. some body;
}

-- A chunk with the handshake, and one with a picture, in pieces.
abbrev raws : List Bytes
raws =
    (0x24 ∷ 0 ∷ 0 ∷ 144 ∷ 0x49 ∷ 0x4d ∷ 0x24 ∷ 0x01 ∷ replicate 140 0)
    ∷ (0x24 ∷ 1 ∷ 0 ∷ 54 ∷ 0 ∷ 0 ∷ 0 ∷ 0 ∷ 0x24 ∷ 0x02 ∷ 0 ∷ 0 ∷ 0 ∷ 0x01 ∷ 0 ∷ 1 ∷ 2 ∷ 3 ∷ 4 ∷ [])
    ∷ (h264_sps_3b ++ (8 ∷ 9 ∷ 9 ∷ replicate 32 0xee))
    ∷ []

pump_upstream_run :
    let r = pump_upstream toy (new_decoder 5) raws watched in
    (r.buffer ≡ h264_sps_3b ++ (8 ∷ 9 ∷ 9 ∷ [])) × (r.session_bytes ≡ 7) × (r.pump ≡ finished)
unfolding pump_upstream pump_round pump_ends extend_buffer has_complete_keyframe rfind_last_keyframe
    rfind feed settle drain take consume_one_chunk handle_chunk derive_keys decrypt_data_chunk
    nonce_12b transform_nonce absorb_plain find_keyframe start_of_output find equal
pump_upstream_run = (refl, refl, refl)

pump_upstream-Pumped_example :
    let out = (feed toy (new_decoder 5) (concat raws)).out in
    let r = pump_upstream toy (new_decoder 5) raws watched in
    (r.session_bytes ≡ watched.session_bytes + length out)
    × (((r.buffer ≡ out) × ((r.buffer ≡ []) ⊎ IsGoodStart r.buffer))
        ⊎ (buffer_trim_target < length out))
pump_upstream-Pumped_example = pump_upstream-Pumped toy 5 raws watched (omega arith) refl
