-- ===== src/Relay/Session.antt =====
-- custom_components/ezviz_hp7/tcp_relay.py: the session of the relay. Each function is a stretch that
-- runs under `_state_lock` or without an `await`; an interleaving is a list of events. Times are
-- whole seconds of `time.monotonic`; the counters of stats.py are always there, as __init__.py has it.
pub mod Step
pub mod Wellformed
pub mod Events
pub mod Sockets
pub mod Idle
pub mod Notify
pub mod Viewer
use ezviz_hp.Base.{
  ℕ, zero, suc, ◌+◌, ◌-◌, ◌*◌, Bool, true, false, not, ◌&&◌, ◌||◌, Option, none, some, List, [],
  ◌∷◌, ltb, leb, ◌==◌, if◌then◌else◌, length,
}
use ezviz_hp.Base.Options.{◌>>=◌}
use ezviz_hp.Base.Bytes.{Bytes, equal}
use ezviz_hp.Base.Text.{codes}
use ezviz_hp.Relay.State.{
  Stats, Pump, no_task, alive, finished, Relay, Attempt, Trigger, motion, alarm, manual,
}
use ezviz_hp.Relay.Buffer.{snapshot_buffer, extend_buffer, has_complete_keyframe}

abbrev pub post_client_grace_seconds : ℕ
post_client_grace_seconds = 5

-- `_is_pump_alive`
unfoldable pub is_pump_alive : Relay → Bool
is_pump_alive s = elim s.pump [ alive ↦ true | _ ↦ false ]

-- `_cancel_close`
unfoldable pub cancel_close : Relay → Relay
cancel_close s = record s { close_at = none }

-- `_reschedule_close`
unfoldable pub reschedule_close : ℕ → Relay → Relay
reschedule_close seconds s =
    if leb seconds 0
    then record s { close_at = none }
    else record s { close_at = some (s.now + seconds) }

-- the state that `_spin_up_upstream` leaves when the LAN client has started
unfoldable pub started : Relay → Relay
started s = record s {
  lan = some s.next_lan;
  pump = alive;
  buffer = [];
  session_started_at = s.now;
  session_bytes = 0;
  stats = record s.stats { lan_sessions_started = suc s.stats.lan_sessions_started };
  next_lan = suc s.next_lan;
  open_lans = s.next_lan ∷ s.open_lans;
}

-- what `_spin_up_upstream` asks before it changes anything; a key of another length is refused by
-- the constructor of the LAN client
unfoldable pub can_start : Attempt → Bool
can_start a =
    not (equal a.host [] || equal a.host (codes "0.0.0.0"))
    && (not (equal a.related [])
        && (elim a.aes_key [ none ↦ false | some key ↦ length key == 16 && a.starts ]))

-- `_spin_up_upstream`; `none` stands for an exception, before which nothing is assigned
unfoldable pub spin_up : Attempt → Relay → Option Relay
spin_up a s = if can_start a then some (started s) else none

-- closing the play socket of a session
unfoldable pub without : ℕ → List ℕ → List ℕ
without i [] = []
without i (j ∷ js) = let rest = without i js in if i == j then rest else j ∷ rest

-- the part of `_teardown_upstream` for a session
close_lan : Option ℕ → Relay → Relay
close_lan none s = s
close_lan (some i) s =
    let duration = if 0 == s.session_started_at then 0 else s.now - s.session_started_at in
    let stats = if 0 == s.session_started_at then s.stats else record s.stats {
      lan_session_total_seconds = s.stats.lan_session_total_seconds + duration;
      lan_session_total_bytes = s.stats.lan_session_total_bytes + s.session_bytes;
    } in
    record s {
      session_started_at = 0;
      session_bytes = 0;
      stats = stats;
      open_lans = without i s.open_lans;
    }

-- `_teardown_upstream`
unfoldable pub teardown : Relay → Relay
unfolding close_lan
teardown s =
    close_lan s.lan
      (record s { close_at = none; pump = no_task; lan = none; buffer = []; keyframe_seen = false })

-- the two counters of a session that did not start
pub count_failure : Relay → Relay
count_failure s = record s {
  stats = record s.stats {
    errors_lan = suc s.stats.errors_lan;
    lan_sessions_failed = suc s.stats.lan_sessions_failed;
  };
}

count_trigger : Trigger → Stats → Stats
count_trigger motion c = record c { prewarms_due_to_motion = suc c.prewarms_due_to_motion }
count_trigger alarm c = record c { prewarms_due_to_alarm = suc c.prewarms_due_to_alarm }
count_trigger manual c = c

count_prewarm : Trigger → Relay → Relay
unfolding count_trigger
count_prewarm t s = record s {
  stats = count_trigger t (record s.stats { prewarms_triggered = suc s.stats.prewarms_triggered });
}

count_skipped : Relay → Relay
count_skipped s = record s {
  stats = record s.stats {
    prewarms_skipped_already_warm = suc s.stats.prewarms_skipped_already_warm;
  };
}

-- `async_prewarm`
unfoldable pub prewarm : Attempt → ℕ → Trigger → Relay → Relay
unfolding count_prewarm count_skipped count_failure
prewarm a hold_seconds trigger s =
    let counted = count_prewarm trigger s in
    if is_pump_alive counted
    then reschedule_close hold_seconds (count_skipped counted)
    else elim (spin_up a counted) [
      | none ↦ teardown (count_failure counted)
      | some s' ↦ reschedule_close hold_seconds s'
    ]

pub count_client : Relay → Relay
count_client s = record s {
  stats = record s.stats { relay_clients_attached = suc s.stats.relay_clients_attached };
}

pub count_warm_client : Relay → Relay
count_warm_client s = record s {
  stats = record s.stats { relay_clients_attached_warm = suc s.stats.relay_clients_attached_warm };
}

-- The first part of `_handle_client`, up to the end of its first section under the lock: the burst
-- for the viewer and the state, or `none` and the state where the viewer is sent away.
unfoldable pub connect : Attempt → Relay → Option Bytes × Relay
unfolding count_client count_warm_client count_failure
connect a s =
    let counted = count_client s in
    if is_pump_alive counted
    then (some (snapshot_buffer counted.buffer), cancel_close (count_warm_client counted))
    else elim (spin_up a counted) [
      | none ↦ (none, teardown (count_failure counted))
      | some s' ↦ (some [], cancel_close s')
    ]

-- the second burst of `_handle_client`, once the first was empty and the wait is over
unfoldable pub burst_after_wait : Bytes → Relay → Bytes
burst_after_wait [] s = snapshot_buffer s.buffer
burst_after_wait (x ∷ burst) s = x ∷ burst

-- `_handle_client` publishes the writer, once the burst is written
unfoldable pub publish : ℕ → Relay → Relay
publish viewer s = record s { writer = some viewer }

is_writer : ℕ → Option ℕ → Bool
is_writer viewer none = false
is_writer viewer (some w) = viewer == w

-- the `finally` of `_handle_client`
unfoldable pub detach : ℕ → Relay → Relay
unfolding is_writer
detach viewer s =
    if is_writer viewer s.writer
    then reschedule_close post_client_grace_seconds (record s { writer = none })
    else s

-- A round of `_pump_upstream` with a plaintext: the buffer, the gate, and the viewer whose socket
-- turns out to be closed. Without plaintext the round changes nothing.
unfoldable pub pump_round : Bytes → Bool → Relay → Relay
pump_round [] writer_broken s = s
pump_round (x ∷ plain) writer_broken s =
    let buffer = extend_buffer s.buffer (x ∷ plain) in
    record s {
      buffer = buffer;
      session_bytes = s.session_bytes + length (x ∷ plain);
      keyframe_seen = s.keyframe_seen || has_complete_keyframe buffer;
      writer = if writer_broken then none else s.writer;
    }

-- the end of `_pump_upstream`: an empty read, or an exception
unfoldable pub pump_ends : Bool → Relay → Relay
pump_ends failed s =
    let errors = if failed then suc s.stats.errors_relay_pump else s.stats.errors_relay_pump in
    record s { pump = finished; stats = record s.stats { errors_relay_pump = errors } }

-- `_maybe_close_upstream`
unfoldable pub maybe_close : Relay → Relay
maybe_close s =
    let fired = record s { close_at = none } in
    elim s.writer [ some _ ↦ fired | none ↦ if is_pump_alive s then teardown fired else fired ]

-- the timer, which runs `_maybe_close_upstream` once its time has come
unfoldable pub timer : Relay → Relay
timer s = elim s.close_at [ none ↦ s | some t ↦ if leb t s.now then maybe_close s else s ]
