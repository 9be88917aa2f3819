-- ===== src/Cloud/Status.antt =====
-- custom_components/ezviz_hp7/api.py: what the two polls of the coordinator get, the static data of a
-- device and its last alarm. The cloud client is not part of the repository: what its calls and the
-- camera object of its library give are arguments.
pub mod Warnings
pub mod Ring
use ezviz_hp.Base.{
  ℕ, Bool, true, false, not, ◌&&◌, ◌||◌, Option, none, some, List, [], ◌∷◌, String, if◌then◌else◌,
}
use ezviz_hp.Base.Bytes.{Bytes, equal}
use ezviz_hp.Base.Text.{codes}
use ezviz_hp.Base.Dict.{Dict, lookup}
use ezviz_hp.Polling.Values.{Value, null, flag, number, text, get, truthy, same, str, member}
use ezviz_hp.Cloud.Api.{Api, Setup, ensure_client}

-- `d.get(k, default)`
get_or_default : String → Value → Dict Value → Value
get_or_default k default d = elim (lookup k d) [ none ↦ default | some v ↦ v ]

-- The camera object: `fetch_key` with its default, `_local_ip`, and the dictionary `WIFI`.
pub record CameraObject : Type 0 where
  pub fetch_key : List String → Value → Value
  pub local_ip : Value
  pub wifi : Dict Value

-- `local_rtsp_port in (0, "0", None)`; in Python 0 is False
is_no_port : Value → Bool
is_no_port v =
    same v (number false 0) || (same v (flag false) || (same v (text (codes "0")) || same v null))

-- `status_static_dict`, without `WIFI`
unfoldable pub status_static_dict : CameraObject → Dict Value
unfolding is_no_port
status_static_dict d =
    let fetched = d.fetch_key ("CONNECTION" ∷ "localRtspPort" ∷ []) (text (codes "554")) in
    let local_rtsp_port = if is_no_port fetched then text (codes "554") else fetched in
    ("name", d.fetch_key ("deviceInfos" ∷ "name" ∷ []) null)
    ∷ ("version", d.fetch_key ("deviceInfos" ∷ "version" ∷ []) null)
    ∷ (
      "upgrade_available",
      flag (same (d.fetch_key ("UPGRADE" ∷ "isNeedUpgrade" ∷ []) null) (number false 3)),
    )
    ∷ ("status", d.fetch_key ("deviceInfos" ∷ "status" ∷ []) null)
    ∷ ("wan_ip", d.fetch_key ("CONNECTION" ∷ "netIp" ∷ []) null)
    ∷ ("local_ip", d.local_ip)
    ∷ ("local_rtsp_port", text (str local_rtsp_port))
    ∷ ("image_encryption", flag (truthy (d.fetch_key ("STATUS" ∷ "isEncrypt" ∷ []) null)))
    ∷ []

-- `v or w`
unfoldable pub or_value : Value → Value → Value
or_value v w = if truthy v then v else w

-- the dictionary that `get_static_status` returns
unfoldable pub static_status : CameraObject → Dict Value
unfolding or_value
static_status d =
    let cam_status = status_static_dict d in
    ("name", get "name" cam_status)
    ∷ ("version", get "version" cam_status)
    ∷ ("upgrade_available", get "upgrade_available" cam_status)
    ∷ ("status", get "status" cam_status)
    ∷ ("wan_ip", get "wan_ip" cam_status)
    ∷ ("ssid", get "ssid" d.wifi)
    ∷ ("signal", get "signal" d.wifi)
    ∷ ("local_ip", or_value (get "local_ip" cam_status) (get "address" d.wifi))
    ∷ ("local_rtsp_port", or_value (get "local_rtsp_port" cam_status) (text (codes "554")))
    ∷ ("image_encryption", flag (truthy (get "image_encryption" cam_status)))
    ∷ []

-- the warning of image encryption: whether it is logged, and the state
warn_once : Bytes → Bool → Api → Bool × Api
warn_once serial image_encryption s =
    if image_encryption && not (member serial s.warned_image_encryption)
    then (true, record s { warned_image_encryption = serial ∷ s.warned_image_encryption })
    else (false, s)

-- `get_static_status`: the data and whether the warning is logged; `none` stands for an exception
unfoldable pub get_static_status :
    Bytes → Setup → Option CameraObject → Api → Option (Dict Value × Bool) × Api
unfolding warn_once
get_static_status serial setup answer s =
    let (ok, s') = ensure_client setup s in
    if not ok then (none, s') else if not s'.client then (none, s') else elim answer [
      | none ↦ (none, s')
      | some d ↦
          let status = static_status d in
          let (warns, s'') = warn_once serial (truthy (get "image_encryption" status)) s' in
          (some (status, warns), s'')
    ]

-- An item of the list of messages: no dictionary, or one with its serial and what the library makes
-- of it.
pub data Item : Type 0 where
  other : Item
  message : Value → Dict Value → Item

-- `response.get("message")` and `response.get("messages")`: empty or missing, no list, or a list
pub data Field : Type 0 where
  falsy : Field
  not_list : Field
  items : List Item → Field

items_of : Field → List Item
items_of (items xs) = xs
items_of _ = []

-- `response.get("message") or response.get("messages") or []`, and `[]` where that is no list
unfoldable pub or_items : Field → Field → List Item
unfolding items_of
or_items falsy b = items_of b
or_items (items []) b = items_of b
or_items a b = items_of a

-- the first message of the serial
unfoldable pub latest : Bytes → List Item → Option (Dict Value)
latest serial [] = none
latest serial (other ∷ xs) = latest serial xs
latest serial (message device_serial normalised ∷ xs) =
    let rest = latest serial xs in
    if same device_serial (text serial) then some normalised else rest

-- What `_motion_trigger` makes of an alarm, `none` where it raises, and what is there before: the
-- seconds passed and whether the alarm is active.
pub record Motion : Type 0 where
  pub trigger : Dict Value → Option (Value × Value)
  pub before : Value × Value

motion_of : Motion → Dict Value → Value × Value
motion_of m alarm =
    if truthy (get "alarmStartTimeStr" alarm)
    then (elim (m.trigger alarm) [ none ↦ m.before | some t ↦ t ])
    else m.before

or_empty : Option (Dict Value) → Dict Value
or_empty none = []
or_empty (some d) = d

abbrev pub default_alarm_pic_url : Value
default_alarm_pic_url =
    text
      (codes "https://eustatics.ezvizlife.com/ovs_mall/web/img/index/EZVIZ_logo.png?ver=3007907502")

-- `status_alarm_dict`, with the keys that `get_alarms` gives them
unfoldable pub status_alarm_dict : Motion → Option (Dict Value) → Dict Value
unfolding or_empty motion_of get_or_default
status_alarm_dict m latest_alarm =
    let alarm = or_empty latest_alarm in
    let (timepassed, active) = motion_of m alarm in
    ("seconds_last_trigger", timepassed)
    ∷ ("last_alarm_time", get "alarmStartTimeStr" alarm)
    ∷ ("last_alarm_pic", get_or_default "picUrl" default_alarm_pic_url alarm)
    ∷ ("alarm_name", get_or_default "sampleName" (text (codes "NoAlarm")) alarm)
    ∷ ("alarm_type_code", get_or_default "alarmType" (text (codes "0000")) alarm)
    ∷ ("motion_trigger", active)
    ∷ []

-- `get_alarms`; `none` stands for an exception
unfoldable pub get_alarms :
    Bytes → Setup → Option (Field × Field) → Motion → Api → Option (Dict Value) × Api
unfolding or_items
get_alarms serial setup answer m s =
    let (ok, s') = ensure_client setup s in
    if not ok then (none, s') else if not s'.client then (none, s') else elim answer [
      | none ↦ (none, s')
      | some (first, second) ↦
          (some (status_alarm_dict m (latest serial (or_items first second))), s')
    ]
