-- ===== src/Cloud/Tests/Polls.antt =====
-- Runs of the polls of api.py, and the theorems at them.
use ezviz_hp.Base.{◌≤◌, true, false, none, some, [], ◌∷◌, ◌≡◌, refl}
use ezviz_hp.Base.Bytes.{equal}
use ezviz_hp.Base.Dict.{Dict, lookup, insert, merge}
use ezviz_hp.Base.Text.{codes}
use ezviz_hp.Polling.Values.{Value, null, text, number, flag, get, truthy, same, str, member}
use ezviz_hp.Polling.Coordinator.{Tick, new_coordinator, is_due, update_data}
use ezviz_hp.Polling.Alarm.{Alarm, new_alarm, handle_update, is_on}
use ezviz_hp.Cloud.Api.{Setup, ensure_client, login_and_store_token}
use ezviz_hp.Cloud.Tests.{fresh, works}
use ezviz_hp.Cloud.Status.{
  CameraObject, message, other, falsy, items, or_items, latest, Motion, status_alarm_dict,
  get_alarms,
}
use ezviz_hp.Cloud.Status.Warnings.{Poll, warnings, count, warnings_once}
use ezviz_hp.Cloud.Status.Ring.{ring-is_on}
use ezviz_hp.Cloud.FeatureCode.{Module, apply_feature_code}

-- A device with image encryption.
abbrev encrypted : CameraObject
encrypted = record { fetch_key = λ path default. number false 1; local_ip = null; wifi = [] }

abbrev poll : Poll
poll = record { serial = codes "A1"; setup = works; answer = some encrypted }

warnings_once_example : count (codes "A1") (warnings (poll ∷ poll ∷ []) fresh) ≤ 1
warnings_once_example = warnings_once (codes "A1") (poll ∷ poll ∷ []) fresh

abbrev ready : Setup
ready = works

abbrev ring : Dict Value
ring =
    ("alarmType", text (codes "2701"))
    ∷ ("alarmStartTimeStr", text (codes "2026-01-02 03:04:05"))
    ∷ []

abbrev still : Motion
still = record { trigger = λ alarm. none; before = (null, flag false) }

abbrev polled : Dict Value
polled = status_alarm_dict still (some ring)

abbrev tick : Tick
tick = record { now = 500; alarms = some polled; static = some [] }

abbrev bell : Alarm
bell = record (new_alarm (codes "A1") [] (codes "2701" ∷ []) []) { seen_first_update = true }

poll_gives :
    (get_alarms
      (codes "A1")
      works
      (some (items (other ∷ message (text (codes "A1")) ring ∷ []), falsy))
      still
      fresh).0
    ≡ some polled
unfolding get_alarms ensure_client login_and_store_token latest or_items same equal
poll_gives = refl

tick_gives : (update_data tick new_coordinator).0 ≡ some (merge [] polled, true)
unfolding update_data is_due merge insert status_alarm_dict lookup get truthy same
tick_gives = refl

ring-is_on_example : is_on 500 (handle_update 500 (merge [] polled) bell) ≡ true
ring-is_on_example =
    ring-is_on (codes "A1") works fresh (items (other ∷ message (text (codes "A1")) ring ∷ []))
      falsy still (other ∷ []) [] (text (codes "A1")) (text (codes "2701"))
      (text (codes "2026-01-02 03:04:05")) ring polled (merge [] polled) tick new_coordinator true
      bell (unfold or_items in refl) (refl, tt) (unfold same equal in refl) (unfold lookup in refl)
      (unfold lookup in refl) poll_gives refl tick_gives refl (unfold truthy in refl)
      (unfold str member equal in refl) (unfold truthy in refl) (unfold same in refl)

-- What the installation of the second entry leaves in the library.
feature_code_run :
    let library : Module = record { feature_code = []; request_header = [] } in
    apply_feature_code []
      (apply_feature_code (codes "b2") (apply_feature_code (codes "a1") library))
    ≡ record { feature_code = codes "b2"; request_header = codes "b2" }
unfolding apply_feature_code
feature_code_run = refl
