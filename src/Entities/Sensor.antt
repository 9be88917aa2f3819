-- ===== src/Entities/Sensor.antt =====
-- custom_components/ezviz_hp7/sensor.py: the values of the sensors. The data of the coordinator have
-- no dictionaries in them, so a path with a dot leads nowhere. What `strptime` makes of a text in the
-- time zone of the host is an argument.
use ezviz_hp.Base.{
  ℕ, Bool, true, false, ◌||◌, Option, none, some, List, [], ◌∷◌, String, if◌then◌else◌,
}
use ezviz_hp.Base.Text.{codes}
use ezviz_hp.Base.Dict.{Dict}
use ezviz_hp.Polling.Values.{Value, null, flag, number, text, get, truthy, same}
use ezviz_hp.Entities.Camera.{is_online}

-- the transforms in `SENSORS`
pub data Transform : Type 0 where
  plain : Transform
  online : Transform
  numeric : Transform
  upgrade : Transform
  timestamp : Transform

pub record Sensor : Type 0 where
  pub path : List String
  pub transform : Transform

abbrev row : String → Transform → Sensor
row key transform = record { path = key ∷ []; transform = transform }

-- `SENSORS`, the path and the transform, with the class of a timestamp
abbrev pub sensors : List Sensor
sensors =
    row "name" plain
    ∷ row "version" plain
    ∷ row "status" online
    ∷ row "signal" numeric
    ∷ row "ssid" plain
    ∷ row "local_ip" plain
    ∷ row "wan_ip" plain
    ∷ row "last_alarm_time" timestamp
    ∷ row "alarm_name" plain
    ∷ row "alarm_type_code" plain
    ∷ row "seconds_last_trigger" plain
    ∷ row "upgrade_available" upgrade
    ∷ []

-- `_dig`, along the parts of a path
unfoldable pub dig : Dict Value → List String → Value
dig values [] = null
dig values (key ∷ []) = get key values
dig values (key ∷ k ∷ keys) = null

-- `v in (1, "1", True, "true")`
is_yes : Value → Bool
is_yes v =
    same v (number false 1)
    || (same v (text (codes "1")) || (same v (flag true) || same v (text (codes "true"))))

only_number : Value → Value
only_number (number negative n) = number negative n
only_number (flag b) = flag b
only_number _ = null

-- What a sensor shows: a value, or a time.
pub data Native : Type 0 where
  value : Value → Native
  time : ℕ → Native

parsed : Option ℕ → Native
parsed none = value null
parsed (some t) = time t

-- `native_value`
unfoldable pub native_value : (Value → Option ℕ) → Sensor → Dict Value → Native
unfolding only_number is_yes parsed
native_value strptime s values =
    let val = dig values s.path in
    elim s.transform [
      | plain ↦ value val
      | online ↦ value (text (if is_online val then codes "online" else codes "offline"))
      | numeric ↦ value (only_number val)
      | upgrade ↦ value (text (if is_yes val then codes "yes" else codes "no"))
      | timestamp ↦ if truthy val then parsed (strptime val) else value null
    ]
