-- ===== src/Entry/Flow/Choices.antt =====
-- The choices that the flow of config_flow.py offers.
use ezviz_hp.Base.{
  Bool, true, false, not, ◌&&◌, ◌||◌, List, [], ◌∷◌, ◌++◌, ◌≡◌, refl, sym, ap, ◌∙◌, arith,
}
use ezviz_hp.Base.Bytes.{Bytes, All, equal, equal_refl}
use ezviz_hp.Base.Keeps.{keep_test}
use ezviz_hp.Base.Table.{Table, put}
use ezviz_hp.Polling.Values.{member}
use ezviz_hp.Entry.Flow.{
  Info, Devices, keys, values, is_empty, shown_serial, unique_id_of, label, add_device, add_devices,
}

-- Each text is in the list once.
unfoldable pub distinct : List Bytes → Bool
distinct [] = true
distinct (x ∷ xs) = not (member x xs) && distinct xs

equal_comm : (x y : Bytes) → equal x y ≡ equal y x
unfolding equal
equal_comm [] [] = refl
equal_comm [] (b ∷ y) = refl
equal_comm (a ∷ x) [] = refl
equal_comm (a ∷ x) (b ∷ y) = ground (arith, equal_comm x y)

member-append :
    (x y : Bytes) (xs : List Bytes) → member x (xs ++ y ∷ []) ≡ (member x xs || equal x y)
unfolding member
member-append x y [] = ground arith
member-append x y (z ∷ xs) = ground (arith, member-append x y xs)

distinct-append :
    (y : Bytes) (xs : List Bytes)
    → member y xs ≡ false
    → distinct xs ≡ true
    → distinct (xs ++ y ∷ []) ≡ true
unfolding distinct member
distinct-append y [] m h = refl
distinct-append y (x ∷ xs) m h =
    ground (arith, member-append x y xs, equal_comm x y, distinct-append y xs)

keys-put :
    (k v : Bytes) (d : Table Bytes)
    → member k (keys d) ≡ false
    → keys (put k v d) ≡ keys d ++ k ∷ []
unfolding put member
keys-put k v [] h = refl
keys-put k v ((j, w) ∷ d) h = ground (arith, equal_comm j k, keys-put k v d)

values-put :
    (k v : Bytes) (d : Table Bytes)
    → member k (keys d) ≡ false
    → values (put k v d) ≡ values d ++ v ∷ []
unfolding put member
values-put k v [] h = refl
values-put k v ((j, w) ∷ d) h = ground (arith, equal_comm j k, values-put k v d)

-- The serials are distinct, so are the unique ids, and both tables have the same serials.
pub record IsChoice (d : Devices) : Type 0 where
  pub serials : distinct (keys d.options) ≡ true
  pub unique_ids : distinct (values d.serial_to_unique) ≡ true
  pub same : keys d.serial_to_unique ≡ keys d.options

-- A device that may be shown is offered, or its unique id is.
pub Offered : Devices → Bytes × Info → Type 0
Offered d (serial_key, info) =
    let shown = shown_serial serial_key info in
    (is_empty shown
      || (member shown (keys d.options)
          || member (unique_id_of shown info) (values d.serial_to_unique)))
    ≡ true

still :
    (e a b a' b' p q : Bool)
    → a' ≡ (a || p)
    → b' ≡ (b || q)
    → (e || (a || b)) ≡ true
    → (e || (a' || b')) ≡ true
still e a b a' b' p q f g h = ground (arith, f, g, h)

there : (e a a' b' : Bool) → a' ≡ (a || true) → (e || (a' || b')) ≡ true
there e a a' b' f = ground (arith, f)

module _ (serial_key : Bytes) (info : Info) (d : Devices) where
  add_device-IsChoice : IsChoice d → IsChoice (add_device serial_key info d)
  unfolding add_device
  add_device-IsChoice h =
      let shown = shown_serial serial_key info in
      let u = unique_id_of shown info in
      keep_test IsChoice (is_empty shown) _ _ (λ e. h)
        (λ e.
          keep_test IsChoice (member shown (keys d.options) || member u (values d.serial_to_unique))
            _ _ (λ e. h)
            (λ e.
              let k : member shown (keys d.options) ≡ false = ground (arith, e) in
              let v : member u (values d.serial_to_unique) ≡ false = ground (arith, e) in
              let k' = ap (member shown) h.same ∙ k in
              record {
                serials =
                    ap distinct (keys-put shown (label shown info) d.options k)
                    ∙ distinct-append shown (keys d.options) k h.serials;
                unique_ids =
                    ap distinct (values-put shown u d.serial_to_unique k')
                    ∙ distinct-append u (values d.serial_to_unique) v h.unique_ids;
                same =
                    keys-put shown u d.serial_to_unique k'
                    ∙ ap (λ x. x ++ shown ∷ []) h.same
                    ∙ sym (keys-put shown (label shown info) d.options k);
              }))

  -- The device is offered afterwards, and what was offered still is.
  add_device-Offered :
      IsChoice d
      → ((x : Bytes × Info) → Offered d x → Offered (add_device serial_key info d) x)
        × Offered (add_device serial_key info d) (serial_key, info)
  unfolding add_device Offered
  add_device-Offered h =
      let shown = shown_serial serial_key info in
      let u = unique_id_of shown info in
      let P = λ (d' : Devices).
        ((x : Bytes × Info) → Offered d x → Offered d' x) × Offered d' (serial_key, info) in
      keep_test P (is_empty shown) _ _ (λ e. (λ x o. o, ground (arith, e)))
        (λ e.
          keep_test P (member shown (keys d.options) || member u (values d.serial_to_unique)) _ _
            (λ f. (λ x o. o, ground (arith, e, f)))
            (λ f.
              let k : member shown (keys d.options) ≡ false = ground (arith, f) in
              let grown = λ (a : Bytes).
                ap (member a) (keys-put shown (label shown info) d.options k)
                ∙ member-append a shown (keys d.options) in
              let grown_ids = λ (b : Bytes).
                ap (member b) (values-put shown u d.serial_to_unique (ap (member shown) h.same ∙ k))
                ∙ member-append b u (values d.serial_to_unique) in
              (
                λ x o.
                    let s = shown_serial x.0 x.1 in
                    let i = unique_id_of s x.1 in
                    still (is_empty s) (member s (keys d.options))
                      (member i (values d.serial_to_unique)) _ _ (equal s shown) (equal i u)
                      (grown s) (grown_ids i) o,
                there (is_empty shown) (member shown (keys d.options)) _ _
                    (grown shown ∙ ap (λ b. member shown (keys d.options) || b) (equal_refl shown)),
              )))

add_devices-Offered :
    (more : List (Bytes × Info)) (d : Devices)
    → IsChoice d
    → IsChoice (add_devices more d)
      × ((x : Bytes × Info) → Offered d x → Offered (add_devices more d) x)
      × All (Offered (add_devices more d)) more
unfolding add_devices
add_devices-Offered [] d h = (h, λ x o. o, tt)
add_devices-Offered ((serial_key, info) ∷ more) d h =
    let (keeps, new) = add_device-Offered serial_key info d h in
    let (choice, later, all) =
      add_devices-Offered more (add_device serial_key info d)
        (add_device-IsChoice serial_key info d h) in
    (choice, λ x o. later x (keeps x o), (later (serial_key, info) new, all))

-- Whatever the cloud lists: the flow offers no serial twice and no two serials with one unique id; and
-- each device that has a serial to show is offered, or another one with its unique id is.
pub choices_lem :
    (devices : List (Bytes × Info))
    → let d = add_devices devices (record { options = []; serial_to_unique = [] }) in
      IsChoice d × All (Offered d) devices
choices_lem devices =
    let start : IsChoice (record { options = []; serial_to_unique = [] }) = record {
      serials = unfold distinct in refl;
      unique_ids = unfold distinct in refl;
      same = refl;
    } in
    let (choice, later, all) = add_devices-Offered devices _ start in (choice, all)
