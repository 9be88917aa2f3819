-- ===== src/Entry/Flow/Options.antt =====
-- custom_components/ezviz_hp7/config_flow.py: the options flow, which shows and stores the mode of the
-- live view. The host accepts only a mode that the form offers.
use ezviz_hp.Base.{Option, none, some, List, [], ◌∷◌, ◌≡◌, refl, ap, sym}
use ezviz_hp.Base.Bytes.{Bytes}
use ezviz_hp.Base.Text.{codes}
use ezviz_hp.Base.Dict.{Dict, lookup, insert}
use ezviz_hp.Polling.Values.{Value}
use ezviz_hp.Entities.Select.{current_option}

-- What a step of the flow gives: the new options, or a form with its default and its choices.
pub data OptionsResult : Type 0 where
  create_entry : Dict Value → OptionsResult
  show_form : Value → List Bytes → OptionsResult

-- `OptionsFlowHandler.async_step_init`
unfoldable pub options_step_init : Option (Dict Value) → Dict Value → OptionsResult
options_step_init (some user_input) options = create_entry user_input
options_step_init none options =
    show_form (current_option options) (codes "mjpeg" ∷ codes "hls" ∷ [])

-- the input that a form gives back, for the mode that is picked in it
abbrev pub submit : Value → Dict Value
submit mode = insert "live_view_mode" mode []

shown : Value → OptionsResult → Value
shown mode (create_entry d) = mode
shown mode (show_form m choices) = m

-- The form that is submitted as it is shown keeps the mode.
submit-shown :
    (options : Dict Value) (mode : Value) (choices : List Bytes)
    → options_step_init none options ≡ show_form mode choices
    → (after : Dict Value) × (options_step_init (some (submit mode)) options ≡ create_entry after)
      × (current_option after ≡ current_option options)
unfolding options_step_init current_option lookup insert shown
submit-shown options mode choices e = (submit mode, refl, sym (ap (shown mode) e))
