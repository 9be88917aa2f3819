-- ===== src/Cloud/Status/Ring.antt =====
-- From the cloud to the sensor: the last alarm of api.py, a tick of coordinator.py, and an alarm sensor
-- of binary_sensor.py.
use ezviz_hp.Base.{Bool, true, false, some, List, [], ◌∷◌, ◌++◌, String, ◌≡◌, refl, ap, ◌∙◌, arith}
use ezviz_hp.Base.Bytes.{Bytes, All}
use ezviz_hp.Base.Dict.{Dict, lookup, first_of_two}
use ezviz_hp.Polling.Values.{Value, text, get, truthy, same, str, member}
use ezviz_hp.Polling.Coordinator.{Coordinator, Tick, update_data}
use ezviz_hp.Polling.Coordinator.Cadence.{update-lookup}
use ezviz_hp.Polling.Alarm.{Alarm, handle_update, is_on}
use ezviz_hp.Polling.Alarm.Pulse.{fires, pulse-is_on_now}
use ezviz_hp.Cloud.Api.{Api, Setup}
use ezviz_hp.Cloud.Status.{
  Item, other, message, Field, or_items, latest, Motion, get_or_default, status_alarm_dict,
  get_alarms,
}

-- whether an item is a message of the serial
abbrev pub is_of : Bytes → Item → Bool
is_of serial other = false
is_of serial (message device_serial d) = same device_serial (text serial)

latest-first :
    (serial : Bytes) (before after : List Item) (device_serial : Value) (d : Dict Value)
    → All (λ x. is_of serial x ≡ false) before
    → same device_serial (text serial) ≡ true
    → latest serial (before ++ (message device_serial d ∷ after)) ≡ some d
unfolding latest
latest-first serial [] after device_serial d a e = rw e refl
latest-first serial (other ∷ before) after device_serial d a e =
    latest-first serial before after device_serial d a.1 e
latest-first serial (message s d' ∷ before) after device_serial d a e =
    rw a.0 (latest-first serial before after device_serial d a.1 e)

get_alarms-some :
    (serial : Bytes) (setup : Setup) (first second : Field) (m : Motion) (s : Api)
    (alarms : Dict Value)
    → (get_alarms serial setup (some (first, second)) m s).0 ≡ some alarms
    → alarms ≡ status_alarm_dict m (latest serial (or_items first second))
unfolding get_alarms
get_alarms-some serial setup first second m s alarms h = ground (arith, h)

-- The three entries of an alarm that a sensor reads.
record IsAlarm (d alarms : Dict Value) : Type 0 where
  time : lookup "last_alarm_time" alarms ≡ some (get "alarmStartTimeStr" d)
  code : (v : Value) → lookup "alarmType" d ≡ some v → lookup "alarm_type_code" alarms ≡ some v

status_alarm_dict-IsAlarm : (m : Motion) (d : Dict Value) → IsAlarm d (status_alarm_dict m (some d))
unfolding status_alarm_dict get_or_default lookup
status_alarm_dict-IsAlarm m d = record {
  time = refl;
  code = λ v e. ap some (rw (e, get_or_default) refl);
}

get-some :
    (k : String) (values : Dict Value) (v : Value) → lookup k values ≡ some v → get k values ≡ v
unfolding get
get-some k values v e = rw (e, get) refl

-- A message for the doorbell is the first of its own in the list of the cloud; a tick hands on what the
-- poll made of it; and a sensor that has seen an update has its code, and not its time. Then the sensor
-- is on at once.
pub ring-is_on :
    (serial : Bytes) (setup : Setup) (s : Api) (first second : Field) (m : Motion)
    (before after : List Item) (device_serial code time : Value) (d alarms values : Dict Value)
    (t : Tick) (c : Coordinator) (logged : Bool) (a : Alarm)
    → or_items first second ≡ before ++ (message device_serial d ∷ after)
    → All (λ x. is_of serial x ≡ false) before
    → same device_serial (text serial) ≡ true
    → lookup "alarmType" d ≡ some code
    → lookup "alarmStartTimeStr" d ≡ some time
    → (get_alarms serial setup (some (first, second)) m s).0 ≡ some alarms
    → t.alarms ≡ some alarms
    → (update_data t c).0 ≡ some (values, logged)
    → a.seen_first_update ≡ true
    → truthy code ≡ true
    → member (str code) a.match_codes ≡ true
    → truthy time ≡ true
    → same time a.prev_alarm_time ≡ false
    → is_on t.now (handle_update t.now values a) ≡ true
ring-is_on serial setup s first second m before after device_serial code time d alarms values t c
      logged a listed none_before own has_code has_time polled given handed seen tc mc tt new =
    let made : alarms ≡ status_alarm_dict m (some d) =
      get_alarms-some serial setup first second m s alarms polled
      ∙ ap (λ xs. status_alarm_dict m (latest serial xs)) listed
      ∙ ap (status_alarm_dict m)
          (latest-first serial before after device_serial d none_before own) in
    let fields = status_alarm_dict-IsAlarm m d in
    let shown = λ (k : String) (v : Value) (e : lookup k (status_alarm_dict m (some d)) ≡ some v).
      get-some k values v (
        update-lookup t c alarms values logged k given handed
        ∙ ap (λ o. first_of_two o (lookup k (update_data t c).1.cached_static))
            (ap (lookup k) made ∙ e)) in
    let code_shown = shown "alarm_type_code" code (fields.code code has_code) in
    let time_shown =
      shown "last_alarm_time" time
        (fields.time ∙ ap some (get-some "alarmStartTimeStr" d time has_time)) in
    pulse-is_on_now t.now values a seen
      (fires a values code time code_shown time_shown tc mc tt new)
