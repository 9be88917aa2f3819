-- ===== src/Entities/Identity.antt =====
-- custom_components/ezviz_hp7/helpers.py and camera.py, button.py, select.py, sensor.py and
-- binary_sensor.py: the device under which the entities of a doorbell are shown, and their names for
-- the host.
use ezviz_hp.Base.{
  Bool, true, false, not, ◌&&◌, ◌||◌, Option, none, some, List, [], ◌∷◌, ◌++◌, map, String, ◌≡◌,
  refl, ap₂, ◌∙◌, arith,
}
use ezviz_hp.Base.Bytes.{Bytes, equal}
use ezviz_hp.Base.Text.{codes}
use ezviz_hp.Polling.Values.{member}
use ezviz_hp.Polling.Alarms.{simple_map, alarm_map}
use ezviz_hp.Entities.Buttons.{button_actions}
use ezviz_hp.Entities.Sensor.{sensors}

-- `DOMAIN`
abbrev pub domain : Bytes
domain = codes "ezviz_hp7"

pub record DeviceInfo : Type 0 where
  pub identifiers : List (Bytes × Bytes)
  pub name : Bytes
  pub manufacturer : Bytes
  pub model : Bytes

model_or : Option Bytes → Bytes
model_or none = codes "HP7"
model_or (some []) = codes "HP7"
model_or (some (c ∷ cs)) = c ∷ cs

-- `get_device_info`, with the model of the client, if there is one
unfoldable pub get_device_info : Bytes → Option Bytes → DeviceInfo
unfolding model_or
get_device_info serial api_model = record {
  identifiers = (domain, serial) ∷ [];
  name = codes "EZVIZ " ++ (model_or api_model ++ (codes " (" ++ (serial ++ codes ")")));
  manufacturer = codes "EZVIZ";
  model = model_or api_model;
}

-- the unique id of an entity, with what comes after the serial
unfoldable pub unique_id : Bytes → Bytes → Bytes
unique_id serial suffix = domain ++ (codes "_" ++ (serial ++ (codes "_" ++ suffix)))

-- `path.replace(".", "_")`, of the parts of a path
join_path : List String → Bytes
join_path [] = []
join_path (key ∷ []) = codes key
join_path (key ∷ k ∷ keys) = codes key ++ (codes "_" ++ join_path (k ∷ keys))

-- what comes after the serial, for the buttons, the sensors, the binary sensors, the camera and the
-- select
suffixes : Bool → Bool → List Bytes
unfolding join_path
suffixes supports_gate supports_door =
    button_actions supports_gate supports_door
    ++ (map (λ s. codes "sensor_" ++ join_path s.path) sensors
        ++ (map (λ key. codes "binary_" ++ codes key) simple_map
            ++ (map (λ r. codes "alarm_" ++ r.translation_key) alarm_map
                ++ (codes "camera" ∷ codes "live_view_mode" ∷ []))))

-- the unique ids of the entities of a doorbell, as the five set-ups add them
unfoldable pub entity_ids : Bytes → Bool → Bool → List Bytes
unfolding suffixes
entity_ids serial supports_gate supports_door =
    map (unique_id serial) (suffixes supports_gate supports_door)

-- whether no text is in a list twice
abbrev pub are_distinct : List Bytes → Bool
are_distinct [] = true
are_distinct (x ∷ xs) = not (member x xs) && are_distinct xs

equal-append : (p x y : Bytes) → equal (p ++ x) (p ++ y) ≡ equal x y
unfolding equal
equal-append [] x y = refl
equal-append (c ∷ cs) x y = ground (arith, equal-append cs x y)

equal-unique_id : (serial x y : Bytes) → equal (unique_id serial x) (unique_id serial y) ≡ equal x y
unfolding unique_id
equal-unique_id serial x y =
    equal-append domain _ _
    ∙ equal-append (codes "_") _ _
    ∙ equal-append serial _ _
    ∙ equal-append (codes "_") x y

member-map :
    (serial x : Bytes) (ys : List Bytes)
    → member (unique_id serial x) (map (unique_id serial) ys) ≡ member x ys
unfolding member
member-map serial x [] = refl
member-map serial x (y ∷ ys) =
    ap₂ (λ a b. a || b) (equal-unique_id serial x y) (member-map serial x ys)

distinct-map :
    (serial : Bytes) (xs : List Bytes) → are_distinct (map (unique_id serial) xs) ≡ are_distinct xs
distinct-map serial [] = refl
distinct-map serial (x ∷ xs) =
    ap₂ (λ a b. not a && b) (member-map serial x xs) (distinct-map serial xs)

suffixes_distinct : (gate door : Bool) → are_distinct (suffixes gate door) ≡ true
unfolding suffixes button_actions equal member
suffixes_distinct true true = refl
suffixes_distinct true false = refl
suffixes_distinct false true = refl
suffixes_distinct false false = refl

-- No two of the entities of a doorbell have one unique id, whatever its serial and its locks.
pub entity_ids_lem :
    (serial : Bytes) (gate door : Bool) → are_distinct (entity_ids serial gate door) ≡ true
unfolding entity_ids
entity_ids_lem serial gate door =
    distinct-map serial (suffixes gate door) ∙ suffixes_distinct gate door
