-- ===== src/Entry/Setup.antt =====
-- custom_components/ezviz_hp7/__init__.py: the feature code of an entry, and the prewarm on events.
-- The random code is an argument.
pub mod Migration
use ezviz_hp.Base.{
  ℕ, Bool, true, false, not, ◌&&◌, ◌||◌, Option, none, some, List, [], ◌∷◌, String, if◌then◌else◌,
}
use ezviz_hp.Base.Dict.{Dict, insert, erase, merge}
use ezviz_hp.Polling.Values.{Value, null, get, truthy, same}

-- the start of `async_setup_entry`: the data of the entry afterwards, the feature code and the token
-- that the client gets
unfoldable pub prepare_entry : Value → Dict Value → Dict Value × Value × Value
prepare_entry new_code entry_data =
    let feature_code = get "feature_code" entry_data in
    if truthy feature_code
    then (entry_data, feature_code, get "token" entry_data)
    else (erase "token" (insert "feature_code" new_code entry_data), new_code, null)

is_null : Value → Bool
is_null null = true
is_null _ = false

-- `_on_update` of `_install_event_prewarm`: whether a prewarm is triggered, and the alarm time kept
unfoldable pub on_update : Value → Dict Value → Bool × Value
unfolding is_null
on_update alarm_time values =
    let alarm_time_now = get "last_alarm_time" values in
    if is_null alarm_time_now || same alarm_time_now alarm_time
    then (false, alarm_time)
    else (true, alarm_time_now)

-- the prewarms that a list of updates triggers, one flag for each
abbrev pub prewarms : Value → List (Dict Value) → List Bool
prewarms alarm_time [] = []
prewarms alarm_time (u ∷ us) =
    let (fires, next) = on_update alarm_time u in fires ∷ prewarms next us
