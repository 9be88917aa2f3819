-- ===== src/Entry/Flow.antt =====
-- custom_components/ezviz_hp7/config_flow.py: the steps that make an entry. What the cloud answers is
-- an argument.
pub mod Choices
pub mod Options
use ezviz_hp.Base.{
  ℕ, Bool, true, false, not, ◌&&◌, ◌||◌, Option, none, some, List, [], ◌∷◌, ◌++◌, leb, ◌==◌,
  if◌then◌else◌, length,
}
use ezviz_hp.Base.Bytes.{Bytes, equal}
use ezviz_hp.Base.Table.{Table, value_at, put}
use ezviz_hp.Base.Text.{codes}
use ezviz_hp.Polling.Values.{strip, member}

-- What the list of devices says of one, `[]` where it says nothing.
pub record Info : Type 0 where
  pub name : Bytes
  pub device_name : Bytes
  pub device_id : Bytes
  pub uuid : Bytes
  pub serial_long : Bytes
  pub full_serial : Bytes

-- `a or b` of two texts
or_else : Bytes → Bytes → Bytes
or_else [] b = b
or_else (c ∷ a) b = c ∷ a

has_dash : Bytes → Bool
has_dash [] = false
has_dash (c ∷ cs) = c == b'-' || has_dash cs

-- `_looks_like_long_serial`
unfoldable pub looks_like_long_serial : Bytes → Bool
unfolding has_dash
looks_like_long_serial serial = has_dash serial || leb 12 (length serial)

-- the serial that is shown, `[]` for a record that is skipped
unfoldable pub shown_serial : Bytes → Info → Bytes
unfolding or_else
shown_serial serial_key info =
    if looks_like_long_serial serial_key
    then serial_key
    else or_else info.serial_long info.full_serial

unfoldable pub unique_id_of : Bytes → Info → Bytes
unfolding or_else
unique_id_of shown info =
    or_else info.device_id
      (or_else info.uuid (or_else info.serial_long (or_else info.full_serial shown)))

-- `f"{name} ({shown_serial})"`
label : Bytes → Info → Bytes
unfolding or_else
label shown info =
    strip (or_else info.name (or_else info.device_name (codes "Device")))
    ++ (codes " (" ++ (shown ++ codes ")"))

-- `options` and `serial_to_unique`
pub record Devices : Type 0 where
  pub options : Table Bytes
  pub serial_to_unique : Table Bytes

-- `d.keys()` and `d.values()`
abbrev pub keys : Table Bytes → List Bytes
keys [] = []
keys ((k, v) ∷ d) = k ∷ keys d

abbrev pub values : Table Bytes → List Bytes
values [] = []
values ((k, v) ∷ d) = v ∷ values d

is_empty : Bytes → Bool
is_empty [] = true
is_empty (c ∷ cs) = false

-- a round of the loop over the devices
unfoldable pub add_device : Bytes → Info → Devices → Devices
unfolding is_empty label
add_device serial_key info d =
    let shown = shown_serial serial_key info in
    let unique_id = unique_id_of shown info in
    if is_empty shown
    then d
    else if member shown (keys d.options) || member unique_id (values d.serial_to_unique)
    then d
    else record {
      options = put shown (label shown info) d.options;
      serial_to_unique = put shown unique_id d.serial_to_unique;
    }

unfoldable pub add_devices : List (Bytes × Info) → Devices → Devices
add_devices [] d = d
add_devices ((serial_key, info) ∷ more) d = add_devices more (add_device serial_key info d)

-- What the flow shows or does next.
pub data Result : Type 0 where
  user_form : Option Bytes → Result
  pick_serial_form : List Bytes → Result
  enter_serial_form : Result
  abort : Result
  create_entry : Bytes → Result

-- how the login and the list of devices end
pub data Cloud : Type 0 where
  listed : List (Bytes × Info) → Cloud
  value_error : Cloud
  other_error : Cloud

-- the attributes of the flow
pub record Flow : Type 0 where
  pub has_creds : Bool
  pub devices : Option Devices

offer : Devices → Flow → Result × Flow
offer d f = elim d.options [
  | [] ↦ (enter_serial_form, record f { has_creds = true })
  | o ∷ os ↦ (pick_serial_form (keys (o ∷ os)), record { has_creds = true; devices = some d })
]

-- `async_step_user`; without input it shows the form
unfoldable pub step_user : Option Cloud → Flow → Result × Flow
unfolding offer
step_user none f = (user_form none, f)
step_user (some value_error) f = (user_form (some (codes "auth")), f)
step_user (some other_error) f = (user_form (some (codes "cannot_connect")), f)
step_user (some (listed devices)) f =
    offer (add_devices devices (record { options = []; serial_to_unique = [] })) f

-- the end of both ways to a serial: the unique id must not be configured yet
unfoldable pub finish : List Bytes → Bytes → Bytes → Result
finish configured unique_id serial =
    if member unique_id configured then abort else create_entry serial

chosen_unique_id : Bytes → Option Bytes → Bytes
unfolding or_else
chosen_unique_id serial none = serial
chosen_unique_id serial (some unique_id) = or_else unique_id serial

-- `async_step_pick_serial`; the form refuses a serial that is no option, and without a list of
-- devices the step raises
unfoldable pub step_pick_serial : List Bytes → Option Bytes → Flow → Option Result
unfolding chosen_unique_id
step_pick_serial configured input f = elim f.devices [
  | none ↦ none
  | some d ↦ elim input [
    | none ↦ some (pick_serial_form (keys d.options))
    | some serial ↦
        if member serial (keys d.options)
        then some (
            finish configured (chosen_unique_id serial (value_at serial d.serial_to_unique)) serial)
        else none
  ]
]

-- `async_step_enter_serial`
unfoldable pub step_enter_serial : List Bytes → Option Bytes → Result
step_enter_serial configured none = enter_serial_form
step_enter_serial configured (some input) =
    let serial = strip input in finish configured serial serial
