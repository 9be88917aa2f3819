-- ===== src/Polling/Tests.antt =====
-- Runs of the coordinator and of the alarm sensor, and the theorems at them.
use ezviz_hp.Base.{ℕ, true, none, some, [], ◌∷◌, ◌≡◌, refl, arith}
use ezviz_hp.Base.Bytes.{equal}
use ezviz_hp.Base.Text.{codes}
use ezviz_hp.Base.Dict.{Dict, lookup, insert, merge}
use ezviz_hp.Polling.Values.{Value, text, get, truthy, same, str, member}
use ezviz_hp.Polling.Coordinator.{new_coordinator, Tick, is_due, update_data, run}
use ezviz_hp.Polling.Coordinator.Cadence.{IsPaced, never, run-IsPaced}
use ezviz_hp.Polling.Alarm.{Alarm, new_alarm, is_new, matches_alarm}

abbrev device : Dict Value
device = ("name", text (codes "Door")) ∷ ("last_alarm_time", text (codes "never")) ∷ []

abbrev ring : Dict Value
ring =
    ("last_alarm_time", text (codes "10:00"))
    ∷ ("alarm_name", text (codes "Ring"))
    ∷ ("alarm_type_code", text (codes "12"))
    ∷ []

abbrev tick : ℕ → Tick
tick n = record { now = n; alarms = some ring; static = some device }

ticks_run :
    let s = run (tick 1000 ∷ tick 1015 ∷ tick 1300 ∷ []) new_coordinator in
    (s.cloud_polls ≡ 3) × (s.cloud_polls_static ≡ 2) × (s.last_static_fetch ≡ some 1300)
unfolding update_data is_due get lookup merge insert truthy same equal
ticks_run = (refl, refl, refl)

run-IsPaced_example : IsPaced 1000 (run (tick 1000 ∷ tick 1015 ∷ tick 1300 ∷ []) new_coordinator)
run-IsPaced_example =
    run-IsPaced 1000 (tick 1000 ∷ tick 1015 ∷ tick 1300 ∷ []) new_coordinator (omega arith)
      (never refl refl)

abbrev offline : Tick
offline = record { now = 7; alarms = some ring; static = none }

tick_hands_out : (update_data (tick 5) new_coordinator).0 ≡ some (merge device ring, true)
unfolding update_data is_due get lookup merge insert truthy same equal
tick_hands_out = refl

abbrev sensor : Alarm
sensor = record (new_alarm (codes "S1") (codes "Ring" ∷ []) [] []) { seen_first_update = true }

fresh_ring : is_new sensor ring ≡ true
unfolding is_new matches_alarm get lookup truthy same str member equal
fresh_ring = refl
