-- ===== src/Polling/Alarm.antt =====
-- custom_components/ezviz_hp7/binary_sensor.py: the sensor that pulses on an alarm, and the simple
-- one. Times are whole seconds.
pub mod Pulse
use ezviz_hp.Base.{
  ℕ, ◌+◌, ◌-◌, Bool, true, false, not, ◌&&◌, ◌||◌, Option, none, some, List, [], ◌∷◌, String, ltb,
  if◌then◌else◌,
}
use ezviz_hp.Base.Bytes.{Bytes, equal}
use ezviz_hp.Base.Dict.{Dict}
use ezviz_hp.Polling.Values.{
  Value, null, flag, number, text, get, truthy, same, str, member, to_bool,
}

-- `PULSE_SECONDS`
abbrev pub pulse_seconds : ℕ
pulse_seconds = 3

pub record Alarm : Type 0 where
  pub serial : Bytes
  pub match_values : List Bytes
  pub match_codes : List Bytes
  pub local_actions : List Bytes
  pub last_trigger : Option ℕ
  pub prev_alarm_time : Value
  pub seen_first_update : Bool
  pub off_at : Option ℕ

-- `Hp7BinaryAlarm.__init__`
abbrev pub new_alarm : Bytes → List Bytes → List Bytes → List Bytes → Alarm
new_alarm serial match_values match_codes local_actions = record {
  serial = serial;
  match_values = match_values;
  match_codes = match_codes;
  local_actions = local_actions;
  last_trigger = none;
  prev_alarm_time = null;
  seen_first_update = false;
  off_at = none;
}

has_any : List Bytes → Bool
has_any [] = false
has_any (x ∷ xs) = true

-- `name in self._match_values`
names : Value → List Bytes → Bool
names (text name) values = member name values
names _ values = false

-- `_matches_alarm`
unfoldable pub matches_alarm : Alarm → Value → Value → Bool
unfolding has_any names
matches_alarm s name code =
    (truthy code && (has_any s.match_codes && member (str code) s.match_codes))
    || names name s.match_values

is_null : Value → Bool
is_null null = true
is_null _ = false

-- the pulse: the time, and `_schedule_state_update`, which replaces the callback of an earlier pulse
unfoldable pub pulse : ℕ → Alarm → Alarm
pulse now s = record s { last_trigger = some now; off_at = some (now + pulse_seconds) }

-- the condition of a pulse in `_handle_coordinator_update`
unfoldable pub is_new : Alarm → Dict Value → Bool
unfolding is_null
is_new s values =
    let current_alarm_time = get "last_alarm_time" values in
    matches_alarm s (get "alarm_name" values) (get "alarm_type_code" values)
    && (not (is_null current_alarm_time) && not (same current_alarm_time s.prev_alarm_time))

-- `_handle_coordinator_update`, at a time and with the coordinator's data
unfoldable pub handle_update : ℕ → Dict Value → Alarm → Alarm
handle_update now values s =
    if not s.seen_first_update
    then record s { seen_first_update = true; prev_alarm_time = get "last_alarm_time" values }
    else if is_new s values
    then pulse now (record s { prev_alarm_time = get "last_alarm_time" values })
    else s

-- `_handle_local_unlock`
unfoldable pub handle_local_unlock : ℕ → Bytes → Bytes → Alarm → Alarm
handle_local_unlock now serial action s =
    if not (equal serial s.serial) || not (member action s.local_actions) then s else pulse now s

-- `Hp7BinaryAlarm.is_on`
unfoldable pub is_on : ℕ → Alarm → Bool
is_on now s = elim s.last_trigger [ none ↦ false | some t ↦ ltb (now - t) pulse_seconds ]

-- the callback of `_schedule_state_update`
unfoldable pub turn_off : ℕ → Alarm → Alarm
turn_off now s = elim s.off_at [
  | none ↦ s
  | some t ↦ if ltb now t then s else record s { off_at = none }
]

-- `Hp7BinarySimple.is_on`
unfoldable pub simple_is_on : String → Dict Value → Bool
simple_is_on key values = to_bool (get key values)
