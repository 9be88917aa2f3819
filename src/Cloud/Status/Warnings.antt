-- ===== src/Cloud/Status/Warnings.antt =====
-- How often api.py warns of image encryption.
use ezviz_hp.Base.{
  ℕ, suc, ◌≤◌, Bool, true, false, not, Option, none, some, List, [], ◌∷◌, if◌then◌else◌, ◌≡◌, refl,
  ap, ◌∙◌, sym, arith, Bool-cases, inl, inr,
}
use ezviz_hp.Base.Bytes.{Bytes, equal, equal_refl, equal_sound}
use ezviz_hp.Base.Dict.{Dict}
use ezviz_hp.Base.Keeps.{keep_if, keep_option}
use ezviz_hp.Polling.Values.{Value, get, truthy, member}
use ezviz_hp.Cloud.Api.{Api, Setup, ensure_client}
use ezviz_hp.Cloud.Api.Locks.{ensure-warned}
use ezviz_hp.Cloud.Status.{CameraObject, static_status, warn_once, get_static_status}

-- a static poll: the serial, and what the cloud answers
pub record Poll : Type 0 where
  pub serial : Bytes
  pub setup : Setup
  pub answer : Option CameraObject

is_logged : Option (Dict Value × Bool) → Bool
is_logged none = false
is_logged (some (status, warns)) = warns

-- the serials for which some polls warn, one after another
pub warnings : List Poll → Api → List Bytes
unfolding is_logged
warnings [] s = []
warnings (p ∷ ps) s =
    let (out, s') = get_static_status p.serial p.setup p.answer s in
    let rest = warnings ps s' in if is_logged out then p.serial ∷ rest else rest

-- how often a serial is in a list
pub count : Bytes → List Bytes → ℕ
count x [] = 0
count x (y ∷ ys) = if equal x y then suc (count x ys) else count x ys

abbrev warned : Bytes → Api → Bool
warned x s = member x s.warned_image_encryption

-- What a poll does to the warnings: one that was given stays given and is not logged again, and one
-- that is logged is given.
record IsWarned (p : Poll) (s : Api) (r : Option (Dict Value × Bool) × Api) : Type 0 where
  kept : (x : Bytes) → warned x s ≡ true → warned x r.1 ≡ true
  once : warned p.serial s ≡ true → is_logged r.0 ≡ false
  given : is_logged r.0 ≡ true → warned p.serial r.1 ≡ true

silent-IsWarned :
    (p : Poll) (s s' : Api)
    → s'.warned_image_encryption ≡ s.warned_image_encryption
    → IsWarned p s (none, s')
unfolding is_logged
silent-IsWarned p s s' e = record {
  kept = λ x h. ap (member x) e ∙ h;
  once = λ h. refl;
  given = λ h. absurd (cc);
}

warn_once-IsWarned :
    (p : Poll) (status : Dict Value) (b : Bool) (s : Api)
    → let (warns, s') = warn_once p.serial b s in IsWarned p s (some (status, warns), s')
unfolding warn_once is_logged member
warn_once-IsWarned p status false s = record {
  kept = λ x h. h;
  once = λ h. refl;
  given = λ h. absurd (cc);
}
warn_once-IsWarned p status true s = elim (Bool-cases (warned p.serial s)) [
  | inl e ↦ rw e (record { kept = λ x h. h; once = λ h. refl; given = λ h. absurd (cc) })
  | inr e ↦ rw e (record {
    kept = λ x h. ground (arith, h);
    once = λ h. absurd (cc);
    given = λ h. ground (arith, equal_refl p.serial);
  })
]

IsWarned-other :
    (p : Poll) (s t : Api) (r : Option (Dict Value × Bool) × Api)
    → t.warned_image_encryption ≡ s.warned_image_encryption
    → IsWarned p t r
    → IsWarned p s r
IsWarned-other p s t r e h = record {
  kept = λ x k. h.kept x (ap (member x) e ∙ k);
  once = λ k. h.once (ap (member p.serial) e ∙ k);
  given = h.given;
}

poll-IsWarned : (p : Poll) (s : Api) → IsWarned p s (get_static_status p.serial p.setup p.answer s)
unfolding get_static_status
poll-IsWarned p s =
    let t = (ensure_client p.setup s).1 in
    let e = ensure-warned p.setup s in
    keep_if (IsWarned p s) (not (ensure_client p.setup s).0) _ _ (silent-IsWarned p s t e) (
      keep_if (IsWarned p s) (not t.client) _ _ (silent-IsWarned p s t e) (
        keep_option (IsWarned p s) p.answer _ _ (silent-IsWarned p s t e) (λ d.
          let status = static_status d in
          IsWarned-other p s t _ e
            (warn_once-IsWarned p status (truthy (get "image_encryption" status)) t))))

none_again :
    (x : Bytes) (ps : List Poll) (s : Api) → warned x s ≡ true → count x (warnings ps s) ≡ 0
unfolding warnings count
none_again x [] s h = refl
none_again x (p ∷ ps) s h =
    let r = get_static_status p.serial p.setup p.answer s in
    let w = poll-IsWarned p s in
    let ih = none_again x ps r.1 (w.kept x h) in
    elim (Bool-cases (is_logged r.0)) [
      | inl e ↦ elim (Bool-cases (equal x p.serial)) [
        | inl same ↦
            let no = w.once (ap (λ y. warned y s) (sym (equal_sound x p.serial same)) ∙ h) in
            absurd (cc)
        | inr differs ↦ rw (e, differs) ih
      ]
      | inr e ↦ rw e ih
    ]

-- In whatever order the devices are polled, and whatever the cloud answers, the warning of image
-- encryption is logged for each serial once at most.
pub warnings_once : (x : Bytes) (ps : List Poll) (s : Api) → count x (warnings ps s) ≤ 1
unfolding warnings count
warnings_once x [] s = omega arith
warnings_once x (p ∷ ps) s =
    let r = get_static_status p.serial p.setup p.answer s in
    let w = poll-IsWarned p s in
    elim (Bool-cases (is_logged r.0)) [
      | inl e ↦ elim (Bool-cases (equal x p.serial)) [
        | inl same ↦
            let given = ap (λ y. warned y r.1) (equal_sound x p.serial same) ∙ w.given e in
            let none_left = none_again x ps r.1 given in rw (e, same) (omega (arith, none_left))
        | inr differs ↦ rw (e, differs) (warnings_once x ps r.1)
      ]
      | inr e ↦ rw e (warnings_once x ps r.1)
    ]
