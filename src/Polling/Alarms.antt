-- ===== src/Polling/Alarms.antt =====
-- custom_components/ezviz_hp7/binary_sensor.py: the tables of the sensors, and the entities that the
-- set-up makes of them. Classes and icons are left out.
use ezviz_hp.Base.{Option, none, some, List, [], ◌∷◌, String, map}
use ezviz_hp.Base.Bytes.{Bytes}
use ezviz_hp.Base.Text.{codes}
use ezviz_hp.Base.{ℕ}
use ezviz_hp.Polling.Alarm.{Alarm, new_alarm, handle_local_unlock}

-- a row of `ALARM_MAP`
pub record Row : Type 0 where
  pub match_values : List Bytes
  pub translation_key : Bytes
  pub local_actions : List Bytes
  pub match_codes : List Bytes

-- `SIMPLE_MAP`, its keys
abbrev pub simple_map : List String
simple_map = "image_encryption" ∷ "motion_trigger" ∷ []

-- `ALARM_MAP`
abbrev pub alarm_map : List Row
alarm_map =
    record {
      match_values = codes "Smart Detection Alarm" ∷ [];
      translation_key = codes "smart_detection_alarm";
      local_actions = [];
      match_codes = codes "10079" ∷ [];
    }
    ∷ record {
      match_values = codes "Intelligent Detection Alarm" ∷ [];
      translation_key = codes "intelligent_detection_alarm";
      local_actions = [];
      match_codes = [];
    }
    ∷ record {
      match_values = codes "Your doorbell is ringing" ∷ [];
      translation_key = codes "doorbell_ringing";
      local_actions = [];
      match_codes = codes "2701" ∷ [];
    }
    ∷ record {
      match_values = codes "EZVIZ app open the gate" ∷ codes "Monitor open the gate" ∷ [];
      translation_key = codes "gate_open";
      local_actions = codes "unlock_gate" ∷ [];
      match_codes = codes "10243" ∷ [];
    }
    ∷ record {
      match_values = codes "EZVIZ app unlock the lock" ∷ codes "Monitor unlock the lock" ∷ [];
      translation_key = codes "unlock_lock";
      local_actions = codes "unlock_door" ∷ [];
      match_codes = codes "10242" ∷ [];
    }
    ∷ []

-- the alarm sensors that `async_setup_entry` adds
unfoldable pub new_alarms : Bytes → List Alarm
new_alarms serial =
    map (λ r. new_alarm serial r.match_values r.match_codes r.local_actions) alarm_map

-- the signal of a local unlock, which reaches every alarm sensor
unfoldable pub dispatch : ℕ → Option (Bytes × Bytes) → List Alarm → List Alarm
dispatch now none alarms = alarms
dispatch now (some (serial, action)) alarms = map (handle_local_unlock now serial action) alarms
