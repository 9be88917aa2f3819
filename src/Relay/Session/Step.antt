-- ===== src/Relay/Session/Step.antt =====
-- What can happen to the relay of tcp_relay.py, one event after another.
use ezviz_hp.Base.{ℕ, ◌+◌, Bool, List, [], ◌∷◌, if◌then◌else◌}
use ezviz_hp.Base.Bytes.{Bytes}
use ezviz_hp.Relay.State.{Relay, Attempt, Trigger}
use ezviz_hp.Relay.Session.{
  is_pump_alive, prewarm, connect, publish, detach, pump_round, pump_ends, timer, teardown,
}

-- what can happen next
pub data Event : Type 0 where
  prewarmed : Attempt → ℕ → Trigger → Event
  connected : Attempt → Event
  published : ℕ → Event
  detached : ℕ → Event
  received : Bytes → Bool → Event
  upstream_ended : Bool → Event
  timer_fired : Event
  stopped : Event
  time_passed : ℕ → Event

unfoldable pub step : Event → Relay → Relay
step (prewarmed a hold t) s = prewarm a hold t s
step (connected a) s = (connect a s).1
step (published viewer) s = publish viewer s
step (detached viewer) s = detach viewer s
step (received plain broken) s = if is_pump_alive s then pump_round plain broken s else s
step (upstream_ended failed) s = if is_pump_alive s then pump_ends failed s else s
step timer_fired s = timer s
step stopped s = teardown s
step (time_passed seconds) s = record s { now = s.now + seconds }

abbrev pub run : List Event → Relay → Relay
run [] s = s
run (e ∷ es) s = run es (step e s)
