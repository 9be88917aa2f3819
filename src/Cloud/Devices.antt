-- ===== src/Cloud/Devices.antt =====
-- custom_components/ezviz_hp7/api.py: the model of a device, the list of devices, and the end of the
-- client. What the cloud client answers is an argument.
pub mod Detect
use ezviz_hp.Base.{
  ℕ, ◌-◌, Bool, true, false, not, ◌&&◌, ◌||◌, Option, none, some, List, [], ◌∷◌, map, leb,
  if◌then◌else◌, ◌≡◌, refl, ap, ◌∙◌, sym, arith, Bool-cases, inl, inr,
}
use ezviz_hp.Base.Bytes.{Bytes}
use ezviz_hp.Base.Text.{codes}
use ezviz_hp.Base.Search.{find}
use ezviz_hp.Base.Table.{Table, put}
use ezviz_hp.Polling.Values.{Value, null, flag, number, text, truthy}
use ezviz_hp.Cloud.Api.{Api, Setup, ensure_client}
use ezviz_hp.Cloud.Status.{or_value}

-- `text.upper()` on ASCII
unfoldable pub upper : Bytes → Bytes
upper = map (λ c. if leb b'a' c && leb c b'z' then c - 32 else c)

-- `v.upper()`; `none` stands for the `AttributeError` of what is no text
upper_of : Value → Option Bytes
upper_of (text cs) = some (upper cs)
upper_of _ = none

-- `"CP7" in text`
unfoldable pub has_cp7 : Bytes → Bool
has_cp7 cs = elim (find (codes "CP7") cs) [ none ↦ false | some i ↦ true ]

-- The answer of `get_device_infos`: the category; the one in `deviceInfos`, `none` where that is no
-- dictionary; those of `resourceInfos`, `none` for an item that is no dictionary.
pub record Infos : Type 0 where
  pub sub_category : Value
  pub device_infos : Option Value
  pub resource_infos : List (Option Value)

-- the category of the device
category : Infos → Option Bytes
unfolding upper_of
category i =
    if truthy i.sub_category
    then upper_of i.sub_category
    else elim i.device_infos [ none ↦ none | some v ↦ upper_of (or_value v (text [])) ]

-- the loop over the resources, which stops at the first CP7
scan_resources : Bytes → List (Option Value) → Option Bytes
unfolding upper_of
scan_resources sub_cat [] = some sub_cat
scan_resources sub_cat (none ∷ rs) = none
scan_resources sub_cat (some v ∷ rs) = elim (upper_of (or_value v (text []))) [
  | none ↦ none
  | some rsc ↦ if has_cp7 rsc then some rsc else scan_resources sub_cat rs
]

-- the category that decides; `none` where an exception that is caught comes between
decisive : Infos → Option Bytes
unfolding category scan_resources
decisive i = elim (category i) [
  | none ↦ none
  | some sub_cat ↦ if has_cp7 sub_cat then some sub_cat else scan_resources sub_cat i.resource_infos
]

set_model : Option Bytes → Api → Api
set_model none s = s
set_model (some sub_cat) s = if has_cp7 sub_cat then record s { model = codes "CP7" } else s

-- the call of `get_device_infos`: an answer, an exception that is caught, or another
pub data Call : Type 0 where
  infos : Infos → Call
  caught : Call
  uncaught : Call

-- `detect_capabilities`: false where it raises
unfoldable pub detect_capabilities : Setup → Call → Api → Bool × Api
unfolding decisive set_model
detect_capabilities setup call s =
    let (ok, s') = ensure_client setup s in
    if not ok then (false, s') else if not s'.client then (true, s') else elim call [
      | infos i ↦
          (true, record (set_model (decisive i) s') { supports_door = true; supports_gate = true })
      | caught ↦ (true, record s' { supports_door = true; supports_gate = true })
      | uncaught ↦ (false, s')
    ]

-- the names of a device, `name` and `deviceName`
device_name : Value × Value → Value
device_name (name, device_name') = or_value name (or_value device_name' (text (codes "Device")))

collect : List (Bytes × Value × Value) → Table Value → Table Value
unfolding device_name
collect [] result = result
collect ((serial, name, other_name) ∷ devices) result =
    collect devices (put serial (device_name (name, other_name)) result)

-- `list_devices`: `none` where `ensure_client` raises
unfoldable pub list_devices :
    Setup → Option (List (Bytes × Value × Value)) → Api → Option (Table Value) × Api
unfolding collect
list_devices setup answer s =
    let (ok, s') = ensure_client setup s in
    if not ok
    then (none, s')
    else if not s'.client
    then (some [], s')
    else elim answer [ none ↦ (some [], s') | some devices ↦ (some (collect devices []), s') ]

-- `close`, with whether the logout raises an exception that is not caught: whether it raises
unfoldable pub close : Bool → Api → Bool × Api
close logout_fails s = if s.client then (logout_fails, record s { client = false }) else (false, s)
