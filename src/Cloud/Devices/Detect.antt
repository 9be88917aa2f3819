-- ===== src/Cloud/Devices/Detect.antt =====
-- Which model api.py takes a device for.
use ezviz_hp.Base.{
  Bool, true, false, ◌||◌, Option, some, List, [], ◌∷◌, map, if◌then◌else◌, ◌≡◌, refl, Bool-cases,
  inl, inr,
}
use ezviz_hp.Base.Bytes.{Bytes}
use ezviz_hp.Base.Text.{codes}
use ezviz_hp.Polling.Values.{text, truthy}
use ezviz_hp.Cloud.Api.{Api, Setup, ensure_client}
use ezviz_hp.Cloud.Status.{or_value}
use ezviz_hp.Cloud.Devices.{
  upper, has_cp7, category, scan_resources, decisive, set_model, infos, detect_capabilities,
}

-- whether one of some categories is that of a CP7
abbrev pub any_cp7 : List Bytes → Bool
any_cp7 [] = false
any_cp7 (x ∷ xs) = has_cp7 (upper x) || any_cp7 xs

abbrev cp7_if : Bool → Api → Api
cp7_if b s = if b then record s { model = codes "CP7" } else s

set_model-if :
    (r : Bytes) (o : Option Bytes) (b : Bool) (s : Api)
    → set_model o s ≡ cp7_if b s
    → set_model (if has_cp7 r then some r else o) s ≡ cp7_if (has_cp7 r || b) s
unfolding set_model
set_model-if r o b s h = elim (Bool-cases (has_cp7 r)) [
  | inl e ↦ rw (e, set_model, e) refl
  | inr e ↦ rw e h
]

scan_resources-any :
    (sub_cat : Bytes) (xs : List Bytes) (s : Api)
    → has_cp7 sub_cat ≡ false
    → set_model (scan_resources sub_cat (map (λ x. some (text x)) xs)) s ≡ cp7_if (any_cp7 xs) s
unfolding scan_resources or_value truthy
scan_resources-any sub_cat [] s h = unfold set_model in rw h refl
scan_resources-any sub_cat ([] ∷ xs) s h =
    set_model-if (upper []) _ (any_cp7 xs) s (scan_resources-any sub_cat xs s h)
scan_resources-any sub_cat ((c ∷ cs) ∷ xs) s h =
    set_model-if (upper (c ∷ cs)) _ (any_cp7 xs) s (scan_resources-any sub_cat xs s h)

decide :
    (cat : Bytes) (xs : List Bytes) (s : Api)
    → set_model
        (if has_cp7 (upper cat)
          then some (upper cat)
          else scan_resources (upper cat) (map (λ x. some (text x)) xs))
        s
      ≡ cp7_if (any_cp7 (cat ∷ xs)) s
decide cat xs s = elim (Bool-cases (has_cp7 (upper cat))) [
  | inl e ↦ unfold set_model in rw (e, set_model, e) refl
  | inr e ↦ rw e (scan_resources-any (upper cat) xs s e)
]

-- the category of a device: its own, or where that is empty the one in `deviceInfos`
abbrev pub own_or : Bytes → Bytes → Bytes
own_or [] d = d
own_or (c ∷ cs) d = c ∷ cs

decisive-any :
    (own d : Bytes) (xs : List Bytes) (s : Api)
    → set_model
        (decisive (record {
          sub_category = text own;
          device_infos = some (text d);
          resource_infos = map (λ x. some (text x)) xs;
        }))
        s
      ≡ cp7_if (any_cp7 (own_or own d ∷ xs)) s
unfolding decisive category or_value truthy
decisive-any [] [] xs s = decide [] xs s
decisive-any [] (c ∷ cs) xs s = decide (c ∷ cs) xs s
decisive-any (c ∷ cs) d xs s = decide (c ∷ cs) xs s

client-ensure : (setup : Setup) (s : Api) → s.client ≡ true → ensure_client setup s ≡ (true, s)
unfolding ensure_client
client-ensure setup s h = rw h refl

-- The client is there, and every category of the device is a text: the model becomes CP7 exactly where
-- one of the categories has CP7 in it, in whatever case, and stays as it was elsewhere; both locks are
-- taken to be there; nothing else changes.
detect_capabilities_lem :
    (setup : Setup) (own d : Bytes) (xs : List Bytes) (s : Api)
    → s.client ≡ true
    → detect_capabilities setup
        (infos (record {
          sub_category = text own;
          device_infos = some (text d);
          resource_infos = map (λ x. some (text x)) xs;
        }))
        s
      ≡ (
        true,
        record (if any_cp7 (own_or own d ∷ xs) then record s { model = codes "CP7" } else s) {
          supports_door = true;
          supports_gate = true;
        },
      )
unfolding detect_capabilities
detect_capabilities_lem setup own d xs s h =
    simp (client-ensure setup s h, h, decisive-any own d xs s) refl
