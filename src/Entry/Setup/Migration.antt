-- ===== src/Entry/Setup/Migration.antt =====
-- What the set-up of __init__.py does to the data of an entry, and when it prewarms.
use ezviz_hp.Base.{
  Bool, true, false, ◌||◌, none, some, List, [], ◌∷◌, String, if◌then◌else◌, ◌≡◌, ◌⊎◌, inl, inr,
  refl, ap, ◌∙◌, arith, replicate, length,
}
use ezviz_hp.Base.Bytes.{All}
use ezviz_hp.Base.Dict.{Dict, lookup, insert, erase, lookup-insert, lookup-erase}
use ezviz_hp.Base.Keeps.{keep_test}
use ezviz_hp.Polling.Values.{Value, null, get, truthy, same, same_refl}
use ezviz_hp.Entry.Setup.{prepare_entry, is_null, on_update, prewarms}
use text.Mathlib.Text.{◌==◌}

-- What the set-up should make of the data `d`: a feature code, which the client gets; the token of the
-- old code where the code is old, and none where it is new; nothing else changed.
pub record IsPrepared (d : Dict Value) (r : Dict Value × Value × Value) : Type 0 where
  pub code : truthy r.1 ≡ true
  pub stored : get "feature_code" r.0 ≡ r.1
  pub token : get "token" r.0 ≡ r.2
  pub others :
      (k : String)
      → ("feature_code" == k) ≡ false
      → ("token" == k) ≡ false
      → lookup k r.0 ≡ lookup k d
  pub issued : ((r.2 ≡ get "token" d) × (r.1 ≡ get "feature_code" d)) ⊎ (r.2 ≡ null)

new_code-IsPrepared :
    (code : Value) (d : Dict Value)
    → truthy code ≡ true
    → IsPrepared d (erase "token" (insert "feature_code" code d), code, null)
unfolding get
new_code-IsPrepared code d h = record {
  code = h;
  stored =
      let found : lookup "feature_code" (erase "token" (insert "feature_code" code d)) ≡ some code =
        lookup-erase "token" "feature_code" (insert "feature_code" code d)
        ∙ lookup-insert "feature_code" "feature_code" code d in
      rw (get, found);
  token =
      let gone : lookup "token" (erase "token" (insert "feature_code" code d)) ≡ none =
        lookup-erase "token" "token" (insert "feature_code" code d) in
      rw (get, gone);
  others = λ k a b.
      lookup-erase "token" k (insert "feature_code" code d)
      ∙ ap (λ c. if c then none else lookup k (insert "feature_code" code d)) b
      ∙ lookup-insert "feature_code" k code d
      ∙ ap (λ c. if c then some code else lookup k d) a;
  issued = inr refl;
}

prepared :
    (code : Value) (d : Dict Value) → truthy code ≡ true → IsPrepared d (prepare_entry code d)
unfolding prepare_entry
prepared code d h =
    keep_test (IsPrepared d) (truthy (get "feature_code" d)) _ _
      (λ e. record {
        code = e;
        stored = refl;
        token = refl;
        others = λ k a b. refl;
        issued = inl (refl, refl);
      })
      (λ e. new_code-IsPrepared code d h)

settled :
    (again : Value) (d : Dict Value)
    → truthy (get "feature_code" d) ≡ true
    → prepare_entry again d ≡ (d, get "feature_code" d, get "token" d)
unfolding prepare_entry
settled again d h = rw h

-- With a new code that is not empty, the set-up of an entry makes of its data, whatever they are, a
-- feature code and a token that was issued under it, if any, and keeps every other key; and a second
-- set-up, with whatever new code at hand, leaves the data and the code as they are.
pub prepare_entry-IsPrepared :
    (code again : Value) (d : Dict Value)
    → truthy code ≡ true
    → IsPrepared d (prepare_entry code d)
      × ((prepare_entry again (prepare_entry code d).0).0 ≡ (prepare_entry code d).0)
      × ((prepare_entry again (prepare_entry code d).0).1 ≡ (prepare_entry code d).1)
prepare_entry-IsPrepared code again d h =
    let p = prepared code d h in
    let kept = settled again (prepare_entry code d).0 (ap truthy p.stored ∙ p.code) in
    (p, ap (λ r. r.0) kept, ap (λ r. r.1) kept ∙ p.stored)

-- The alarm time of an update triggers nothing any more.
Quiet : Value → Value → Type 0
Quiet v kept = (is_null v || same v kept) ≡ true

on_update-Quiet :
    (kept : Value) (u : Dict Value) → Quiet (get "last_alarm_time" u) (on_update kept u).1
unfolding on_update Quiet
on_update-Quiet kept u =
    let v = get "last_alarm_time" u in
    keep_test (λ (r : Bool × Value). (is_null v || same v r.1) ≡ true) (is_null v || same v kept) _
      _ (λ e. e) (λ e. ground (arith, same_refl v))

silent :
    (kept : Value) (u : Dict Value)
    → Quiet (get "last_alarm_time" u) kept
    → on_update kept u ≡ (false, kept)
unfolding on_update Quiet
silent kept u h = rw h

hushed :
    (v kept : Value) (us : List (Dict Value))
    → Quiet v kept
    → All (λ u. get "last_alarm_time" u ≡ v) us
    → prewarms kept us ≡ replicate (length us) false
unfolding Quiet
hushed v kept [] h a = refl
hushed v kept (u ∷ us) h a =
    let e = silent kept u (ap (λ x. is_null x || same x kept) a.0 ∙ h) in
    ap (λ (r : Bool × Value). r.0 ∷ prewarms r.1 us) e ∙ ap (◌∷◌ false) (hushed v kept us h a.1)

-- However often the coordinator shows the same alarm time, the relay is prewarmed for it at the first
-- update at most, and not for any of those after it.
pub prewarms_once :
    (kept : Value) (u : Dict Value) (us : List (Dict Value))
    → All (λ x. get "last_alarm_time" x ≡ get "last_alarm_time" u) us
    → prewarms kept (u ∷ us) ≡ (on_update kept u).0 ∷ replicate (length us) false
prewarms_once kept u us a =
    ap (◌∷◌ (on_update kept u).0)
      (hushed (get "last_alarm_time" u) (on_update kept u).1 us (on_update-Quiet kept u) a)
