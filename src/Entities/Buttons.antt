-- ===== src/Entities/Buttons.antt =====
-- custom_components/ezviz_hp7/button.py: the buttons of a doorbell, and a press.
pub mod Press
use ezviz_hp.Base.{ℕ, Bool, true, false, Option, none, some, List, [], ◌∷◌, ◌++◌, if◌then◌else◌}
use ezviz_hp.Base.Bytes.{Bytes, equal}
use ezviz_hp.Base.Text.{codes}
use ezviz_hp.Cloud.Api.{Api, Setup}
use ezviz_hp.Cloud.Api.Unlock.{Unlock, unlock_door, unlock_gate}

-- the actions of the buttons that `async_setup_entry` adds
unfoldable pub button_actions : Bool → Bool → List Bytes
button_actions supports_gate supports_door =
    (if supports_gate then codes "unlock_gate" ∷ [] else [])
    ++ (if supports_door then codes "unlock_door" ∷ [] else [])

-- What a press does: whether it raises, the call to the cloud, and the signal that is sent.
pub record Pressed : Type 0 where
  pub raises : Bool
  pub call : Option Unlock
  pub signal : Option (Bytes × Bytes)
  pub api : Api

-- the part after the call
after_call : Bytes → Bytes → Option Bool × Option Unlock × Api → Pressed
after_call serial action (none, call, api) = record {
  raises = true;
  call = call;
  signal = none;
  api = api;
}
after_call serial action (some success, call, api) = record {
  raises = false;
  call = call;
  signal = if success then some (serial, action) else none;
  api = api;
}

-- `EzvizHp7Button.async_press`
unfoldable pub press : Bytes → Bytes → Setup → Bool → Api → Pressed
unfolding after_call
press serial action setup accepted api =
    if equal action (codes "unlock_gate")
    then after_call serial action (unlock_gate serial setup accepted api)
    else if equal action (codes "unlock_door")
    then after_call serial action (unlock_door serial setup accepted api)
    else record { raises = false; call = none; signal = none; api = api }
