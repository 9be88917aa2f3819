-- ===== src/Cloud/Api/Locks.antt =====
-- The locks of api.py, and a login that has failed.
use ezviz_hp.Base.{ℕ, Bool, true, false, not, Option, none, some, ◌≡◌, refl, sym, arith}
use mathlib.Core.Path.{subst}
use ezviz_hp.Base.Bytes.{Bytes}
use ezviz_hp.Base.Keeps.{keep_test, keep_split}
use ezviz_hp.Cloud.Api.{Api, Setup, login_and_store_token, login_if_needed, ensure_client}
use ezviz_hp.Cloud.Api.Unlock.{Unlock, try_unlock, unlock_door, unlock_gate}

-- What an unlock may come to: one call for this serial and this lock, whose outcome is the result; or
-- no call, and not success.
pub data Unlocked (serial : Bytes) (lock_no : ℕ) (accepted : Bool)
    (r : Option Bool × Option Unlock × Api) : Type 0 where
  called :
      (u : Unlock)
      → r.1 ≡ some u
      → u.serial ≡ serial
      → u.lock_no ≡ lock_no
      → r.0 ≡ some accepted
      → Unlocked serial lock_no accepted r
  no_call : r.1 ≡ none → (r.0 ≡ some true → ⊥) → Unlocked serial lock_no accepted r

try_unlock-Unlocked :
    (serial : Bytes) (lock_no : ℕ) (a : Setup) (accepted : Bool) (s : Api)
    → Unlocked serial lock_no accepted (try_unlock serial lock_no a accepted s)
unfolding try_unlock
try_unlock-Unlocked serial lock_no a accepted s =
    let P = Unlocked serial lock_no accepted in
    let s' = (ensure_client a s).1 in
    keep_test P (not (ensure_client a s).0) _ _ (λ e. no_call refl (λ h. cc))
      (λ e.
        keep_split P s'.token _ _ (λ n. no_call refl (λ h. cc))
          (λ name n.
            keep_test P (not s'.client) _ _ (λ c. no_call refl (λ h. cc))
              (λ c. called _ refl refl refl refl)))

-- Whatever the login and the cloud answer: the door button sends nothing but lock 2 and the gate
-- button nothing but lock 1, for the given serial, at most once; and either reports success exactly
-- where its call was made and accepted.
pub unlock_lem :
    (serial : Bytes) (a : Setup) (accepted : Bool) (s : Api)
    → Unlocked serial 2 accepted (unlock_door serial a accepted s)
      × Unlocked serial 1 accepted (unlock_gate serial a accepted s)
unfolding unlock_door unlock_gate
unlock_lem serial a accepted s =
    (try_unlock-Unlocked serial 2 a accepted s, try_unlock-Unlocked serial 1 a accepted s)

failed_login :
    (a : Setup) (s : Api)
    → s.client ≡ false
    → s.token ≡ none
    → a.constructs ≡ true
    → a.login ≡ none
    → ensure_client a s ≡ (false, record s { client = true })
unfolding ensure_client login_if_needed login_and_store_token
failed_login a s c t k l = ground (arith, c, t, k, l)

-- A login that fails while the client is made leaves the client in place without a token: the next
-- calls of `ensure_client` succeed without a login, and no unlock is sent, whatever the cloud would
-- answer by then.
pub ensure_after_failed_login :
    (a b : Setup) (s : Api) (serial : Bytes) (lock_no : ℕ) (accepted : Bool)
    → s.client ≡ false
    → s.token ≡ none
    → a.constructs ≡ true
    → a.login ≡ none
    → let s' = (ensure_client a s).1 in
      ((ensure_client a s).0 ≡ false)
      × (ensure_client b s' ≡ (true, s'))
      × (try_unlock serial lock_no b accepted s' ≡ (some false, none, s'))
unfolding ensure_client try_unlock
ensure_after_failed_login a b s serial lock_no accepted c t k l =
    subst
      (λ (r : Bool × Api).
        (r.0 ≡ false)
        × (ensure_client b r.1 ≡ (true, r.1))
        × (try_unlock serial lock_no b accepted r.1 ≡ (some false, none, r.1)))
      (sym (failed_login a s c t k l)) (refl, refl, ground (arith, t))

-- The login leaves the warnings of image encryption alone.
pub ensure-warned :
    (a : Setup) (s : Api)
    → (ensure_client a s).1.warned_image_encryption ≡ s.warned_image_encryption
unfolding ensure_client login_if_needed login_and_store_token
ensure-warned a s = ground arith
