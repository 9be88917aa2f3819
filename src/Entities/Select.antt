-- ===== src/Entities/Select.antt =====
-- custom_components/ezviz_hp7/select.py: the choice of the live view, an option of the entry.
use ezviz_hp.Base.{
  arith, ◌⊎◌, inl, inr, true, false, not, Option, none, some, List, [], ◌∷◌, String, if◌then◌else◌,
  ◌≡◌, ◌≢◌, refl, ap, ◌∙◌, sym,
}
use ezviz_hp.Base.Bytes.{Bytes, equal, equal_sound}
use ezviz_hp.Base.Text.{codes}
use ezviz_hp.Base.Dict.{Dict, lookup, insert, lookup-insert}
use ezviz_hp.Base.Keeps.{keep_test}
use ezviz_hp.Polling.Values.{Value, null, flag, number, text, same, same_refl, member}
use ezviz_hp.Relay.Server.{Server}
use ezviz_hp.Entities.Camera.{new_camera, live_view_mjpeg, live_view_hls}

-- `_LIVE_VIEW_OPTIONS`
abbrev pub live_view_options : List Bytes
live_view_options = codes "mjpeg" ∷ codes "hls" ∷ []

or_default : Option Value → Value
or_default none = live_view_mjpeg
or_default (some v) = v

-- `current_option`, which __init__.py reads too for the mode of the camera
unfoldable pub current_option : Dict Value → Value
unfolding or_default
current_option options = or_default (lookup "live_view_mode" options)

-- What a selection comes to: the `ValueError`, nothing, or new options for the entry.
pub data Selected : Type 0 where
  value_error : Selected
  unchanged : Selected
  updated : Dict Value → Selected

-- `async_select_option`
unfoldable pub select_option : Bytes → Dict Value → Selected
select_option option options =
    if not (member option live_view_options)
    then value_error
    else if same (text option) (current_option options)
    then unchanged
    else updated (insert "live_view_mode" (text option) options)

-- the options of the entry afterwards
abbrev pub options_after : Dict Value → Selected → Dict Value
options_after options (updated new_options) = new_options
options_after options _ = options

-- What a selection of a mode should come to: it is not refused, the entry has the mode, and differs in
-- no other option; there are new options only where the mode was another.
pub record IsSelected (option : Bytes) (options : Dict Value) (r : Selected) : Type 0 where
  pub accepted : r ≢ value_error
  pub chosen : current_option (options_after options r) ≡ text option
  pub others :
      (k : String)
      → lookup k (insert "live_view_mode" (text option) (options_after options r))
        ≡ lookup k (insert "live_view_mode" (text option) options)
  pub reloads : (r ≡ unchanged) ⊎ (same (text option) (current_option options) ≡ false)

same_sym_text : (xs : Bytes) (v : Value) → same (text xs) v ≡ true → v ≡ text xs
unfolding same
same_sym_text xs null h = cc
same_sym_text xs (flag b) h = cc
same_sym_text xs (number p n) h = cc
same_sym_text xs (text ys) h = ap text (sym (equal_sound xs ys h))

select_option-IsSelected :
    (option : Bytes) (options : Dict Value)
    → member option live_view_options ≡ true
    → IsSelected option options (select_option option options)
unfolding select_option current_option or_default
select_option-IsSelected option options m =
    keep_test (IsSelected option options) (not (member option live_view_options)) _ _
      (λ e. absurd (cc (m, e)))
      (λ e.
        keep_test (IsSelected option options) (same (text option) (current_option options)) _ _
          (λ s. record {
            accepted = λ r. cc;
            chosen = same_sym_text option (current_option options) s;
            others = λ k. refl;
            reloads = inl refl;
          })
          (λ s. record {
            accepted = λ r. cc;
            chosen =
                ap or_default
                  (lookup-insert "live_view_mode" "live_view_mode" (text option) options);
            others = λ k. ground (
              arith,
              lookup-insert "live_view_mode" k (text option)
                  (insert "live_view_mode" (text option) options),
              lookup-insert "live_view_mode" k (text option) options,
            );
            reloads = inr s;
          }))

hls_text : (xs : Bytes) → same (text xs) live_view_hls ≡ equal xs (codes "hls")
unfolding same
hls_text xs = refl

selected_again :
    (xs : Bytes) (o : Dict Value)
    → member xs live_view_options ≡ true
    → current_option o ≡ text xs
    → select_option xs o ≡ unchanged
unfolding select_option
selected_again xs o m c =
    let kept : same (text xs) (current_option o) ≡ true = rw c (same_refl (text xs)) in
    ap
      (λ b.
        if not b
        then value_error
        else if same (text xs) (current_option o)
        then unchanged
        else updated (insert "live_view_mode" (text xs) o))
      m
    ∙ ap (λ b. if b then unchanged else updated (insert "live_view_mode" (text xs) o)) kept

-- A selection of one of the two modes is not refused: the entry has the mode afterwards and every other
-- option as before, with new options only where the mode was another; a camera that is set up from it
-- has the feature of a stream exactly for HLS, and the same selection again changes nothing.
pub select_option_lem :
    (option : Bytes) (options : Dict Value) (relay : Option Server)
    → member option live_view_options ≡ true
    → let r = select_option option options in
      let after = options_after options r in
      IsSelected option options r
      × ((new_camera relay (current_option after)).supports_stream ≡ equal option (codes "hls"))
      × (select_option option after ≡ unchanged)
unfolding new_camera
select_option_lem option options relay m =
    let sel = select_option-IsSelected option options m in
    (
      sel,
      ap (λ v. same v live_view_hls) sel.chosen ∙ hls_text option,
      selected_again option _ m sel.chosen,
    )
