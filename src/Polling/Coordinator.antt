-- ===== src/Polling/Coordinator.antt =====
-- custom_components/ezviz_hp7/coordinator.py: one tick of the poller.
pub mod Cadence
use ezviz_hp.Base.{
  ℕ, zero, suc, ◌+◌, ◌-◌, Bool, true, false, not, ◌&&◌, Option, none, some, List, [], ◌∷◌, leb,
  if◌then◌else◌,
}
use ezviz_hp.Base.Dict.{Dict, merge}
use ezviz_hp.Polling.Values.{Value, null, get, truthy, same}

-- `STATUS_POLL_INTERVAL_SEC`
abbrev pub status_poll_interval_sec : ℕ
status_poll_interval_sec = 300

-- The attributes of the coordinator, with its counters of stats.py.
pub record Coordinator : Type 0 where
  pub cached_static : Dict Value
  pub last_static_fetch : Option ℕ
  pub last_logged_alarm_time : Value
  pub cloud_polls : ℕ
  pub cloud_polls_alarms : ℕ
  pub cloud_polls_static : ℕ

-- `__init__`
abbrev pub new_coordinator : Coordinator
new_coordinator = record {
  cached_static = [];
  last_static_fetch = none;
  last_logged_alarm_time = null;
  cloud_polls = 0;
  cloud_polls_alarms = 0;
  cloud_polls_static = 0;
}

-- What the cloud answers in a tick, if it is asked, and when; `none` is an exception.
pub record Tick : Type 0 where
  pub now : ℕ
  pub alarms : Option (Dict Value)
  pub static : Option (Dict Value)

-- the condition of the slow poll
unfoldable pub is_due : ℕ → Option ℕ → Bool
is_due now none = true
is_due now (some last) = leb status_poll_interval_sec (now - last)

is_empty : Dict Value → Bool
is_empty [] = true
is_empty (x ∷ d) = false

-- the slow poll: whether the tick goes on, and the state
refresh_static : Tick → Coordinator → Bool × Coordinator
unfolding is_empty
refresh_static t s = elim t.static [
  | some fresh ↦ (
    true,
    record s {
      cached_static = fresh;
      last_static_fetch = some t.now;
      cloud_polls_static = suc s.cloud_polls_static;
    },
  )
  | none ↦ (not (is_empty s.cached_static), s)
]

-- the part of `_async_update_data` after both polls: the data and whether a line is logged
finish : Dict Value → Coordinator → (Dict Value × Bool) × Coordinator
finish alarms s =
    let merged = merge s.cached_static alarms in
    let new_alarm_time = get "last_alarm_time" merged in
    if truthy new_alarm_time && not (same new_alarm_time s.last_logged_alarm_time)
    then ((merged, true), record s { last_logged_alarm_time = new_alarm_time })
    else ((merged, false), s)

-- both polls have succeeded, or the first has and the second may be done without
conclude : Dict Value → Bool × Coordinator → Option (Dict Value × Bool) × Coordinator
unfolding finish
conclude alarms (false, s) = (none, s)
conclude alarms (true, s) = let (out, s') = finish alarms s in (some out, s')

-- `_async_update_data`; `none` stands for `UpdateFailed`
unfoldable pub update_data : Tick → Coordinator → Option (Dict Value × Bool) × Coordinator
unfolding refresh_static conclude
update_data t s =
    let polled = record s { cloud_polls = suc s.cloud_polls } in
    elim t.alarms [
      | none ↦ (none, polled)
      | some alarms ↦
          let counted = record polled { cloud_polls_alarms = suc polled.cloud_polls_alarms } in
          conclude alarms
            (if is_due t.now s.last_static_fetch then refresh_static t counted else (true, counted))
    ]

-- the coordinator after some ticks
abbrev pub run : List Tick → Coordinator → Coordinator
run [] s = s
run (t ∷ ts) s = run ts (update_data t s).1
