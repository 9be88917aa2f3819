-- ===== src/Cloud/Api/Related.antt =====
-- custom_components/ezviz_hp7/api.py: the serial of the camera that belongs to a device.
use ezviz_hp.Base.{Bool, not, ◌&&◌, Option, none, some, List, [], ◌∷◌, ◌==◌, if◌then◌else◌}
use ezviz_hp.Base.Bytes.{Bytes, equal}
use ezviz_hp.Polling.Values.{strip, member}
use ezviz_hp.Cloud.Api.{Api, Setup, ensure_client}

-- what follows the first `-`, where there is one
unfoldable pub after_dash : Bytes → Option Bytes
after_dash [] = none
after_dash (c ∷ cs) = let rest = after_dash cs in if c == b'-' then some cs else rest

-- the serials of the two lists of a device, stripped, `[]` where there is none
pub record Device : Type 0 where
  pub resource_infos : List Bytes
  pub camera_infos : List Bytes

is_sub : Bytes → Bytes → Bool
is_sub serial sub = not (equal sub []) && not (equal sub serial)

resource_candidates : Bytes → List Bytes → List Bytes
unfolding is_sub
resource_candidates serial [] = []
resource_candidates serial (x ∷ xs) =
    let rest = resource_candidates serial xs in
    if is_sub serial (strip x) then strip x ∷ rest else rest

append_last : List Bytes → Bytes → List Bytes
append_last [] y = y ∷ []
append_last (x ∷ xs) y = x ∷ append_last xs y

camera_candidates : Bytes → List Bytes → List Bytes → List Bytes
unfolding is_sub append_last
camera_candidates serial [] found = found
camera_candidates serial (x ∷ xs) found =
    let sub = strip x in
    camera_candidates serial xs
      (if is_sub serial sub && not (member sub found) then append_last found sub else found)

first_or : Bytes → List Bytes → Bytes
first_or serial [] = serial
first_or serial (x ∷ xs) = x

-- `get_related_device`, with the answer of `get_device_infos`; false where `ensure_client` raises
unfoldable pub get_related_device : Bytes → Setup → Option Device → Api → Option Bytes × Api
unfolding first_or camera_candidates resource_candidates
get_related_device serial setup answer s = elim (after_dash serial) [
  | some sub ↦ (some sub, s)
  | none ↦
      let (ok, s') = ensure_client setup s in
      if not ok then (none, s') else if not s'.client then (some serial, s') else elim answer [
        | none ↦ (some serial, s')
        | some dev ↦ (
          some (
              first_or serial (
                camera_candidates serial dev.camera_infos
                  (resource_candidates serial dev.resource_infos))),
          s',
        )
      ]
]
