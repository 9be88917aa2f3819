-- ===== src/Entry/Tests.antt =====
-- Runs of the flow and of the set-up, and the theorems at them.
mod Lifecycle
mod Warmup
use ezviz_hp.Base.{true, false, none, some, List, [], ◌∷◌, ◌≡◌, refl, replicate}
use ezviz_hp.Base.Bytes.{Bytes, All, equal}
use ezviz_hp.Base.Dict.{Dict, lookup}
use ezviz_hp.Base.Table.{value_at, put}
use ezviz_hp.Base.Text.{codes}
use ezviz_hp.Polling.Values.{Value, null, text, get, truthy, same, member}
use ezviz_hp.Entry.Flow.{
  Info, Flow, listed, create_entry, pick_serial_form, looks_like_long_serial, shown_serial,
  unique_id_of, add_device, add_devices, step_user, step_pick_serial, finish,
}
use ezviz_hp.Entry.Flow.Choices.{IsChoice, Offered, choices_lem}
use ezviz_hp.Entry.Setup.{prepare_entry, on_update, prewarms}
use ezviz_hp.Entry.Setup.Migration.{IsPrepared, prepare_entry-IsPrepared, prewarms_once}

abbrev info : Bytes → Info
info unique = record {
  name = codes " Door ";
  device_name = [];
  device_id = unique;
  uuid = [];
  serial_long = [];
  full_serial = [];
}

-- A device, the same one again under another serial, and one whose serial is too short.
abbrev devices : List (Bytes × Info)
devices =
    (codes "A1-C2", info (codes "id"))
    ∷ (codes "A1-C3", info (codes "id"))
    ∷ (codes "B2", info [])
    ∷ []

abbrev flow : Flow
flow = record { has_creds = false; devices = none }

flow_run :
    let (form, f) = step_user (some (listed devices)) flow in
    (form ≡ pick_serial_form (codes "A1-C2" ∷ []))
    × (step_pick_serial [] (some (codes "A1-C2")) f ≡ some (create_entry (codes "A1-C2")))
unfolding step_user step_pick_serial finish add_devices add_device shown_serial unique_id_of
    looks_like_long_serial member equal put value_at
flow_run = (refl, refl)

choices_lem_example :
    let d = add_devices devices (record { options = []; serial_to_unique = [] }) in
    IsChoice d × All (Offered d) devices
choices_lem_example = choices_lem devices

abbrev old_entry : Dict Value
old_entry = ("username", text (codes "me")) ∷ ("token", text (codes "t")) ∷ []

abbrev code : Value
code = text (codes "ab")

truthy_code : truthy code ≡ true
unfolding truthy
truthy_code = refl

prepare_entry-IsPrepared_example :
    IsPrepared old_entry (prepare_entry code old_entry)
    × ((prepare_entry null (prepare_entry code old_entry).0).0 ≡ (prepare_entry code old_entry).0)
    × ((prepare_entry null (prepare_entry code old_entry).0).1 ≡ (prepare_entry code old_entry).1)
prepare_entry-IsPrepared_example = prepare_entry-IsPrepared code null old_entry truthy_code

abbrev update : Dict Value
update = ("last_alarm_time", text (codes "10:00")) ∷ []

prewarms_run : prewarms null (update ∷ update ∷ []) ≡ true ∷ false ∷ []
unfolding on_update get lookup same equal
prewarms_run = refl
