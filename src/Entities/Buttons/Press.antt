-- ===== src/Entities/Buttons/Press.antt =====
-- What a press of button.py sends to the cloud by api.py, and which sensors of binary_sensor.py it
-- switches on.
use ezviz_hp.Base.{
  ℕ, Bool, true, false, ◌||◌, Option, none, some, List, [], ◌∷◌, map, ◌≡◌, refl, ap₂, arith, ◌⊎◌,
  inl, inr,
}
use ezviz_hp.Base.Bytes.{Bytes, All, equal, equal_refl}
use ezviz_hp.Base.Text.{codes}
use ezviz_hp.Polling.Values.{member}
use ezviz_hp.Polling.Alarm.{Alarm, pulse, is_on, handle_local_unlock}
use ezviz_hp.Polling.Alarms.{dispatch}
use ezviz_hp.Cloud.Api.{Api, Setup}
use ezviz_hp.Cloud.Api.Unlock.{Unlock, unlock_door, unlock_gate}
use ezviz_hp.Cloud.Api.Locks.{Unlocked, called, no_call, unlock_lem}
use ezviz_hp.Entities.Buttons.{Pressed, after_call, press}

-- What a press may come to: the lock was opened, and every sensor for the action is on, the others as
-- before; or it was not, and no sensor changes.
pub data IsPress (serial action : Bytes) (lock_no now : ℕ) (accepted : Bool) (alarms : List Alarm)
    (p : Pressed) : Type 0 where
  opened :
      (u : Unlock)
      → p.call ≡ some u
      → u.serial ≡ serial
      → u.lock_no ≡ lock_no
      → accepted ≡ true
      → map (is_on now) (dispatch now p.signal alarms)
        ≡ map (λ a. member action a.local_actions || is_on now a) alarms
      → IsPress serial action lock_no now accepted alarms p
  not_opened :
      (p.call ≡ none) ⊎ (accepted ≡ false)
      → dispatch now p.signal alarms ≡ alarms
      → IsPress serial action lock_no now accepted alarms p

pulse-is_on_now : (now : ℕ) (a : Alarm) → is_on now (pulse now a) ≡ true
unfolding is_on pulse
pulse-is_on_now now a = ground arith

unlock-is_on :
    (now : ℕ) (serial action : Bytes) (a : Alarm)
    → a.serial ≡ serial
    → is_on now (handle_local_unlock now serial action a)
      ≡ member action a.local_actions || is_on now a
unfolding handle_local_unlock
unlock-is_on now serial action a e =
    let same : equal serial a.serial ≡ true = rw e (equal_refl serial) in
    ground (arith, same, pulse-is_on_now now a)

signal-is_on :
    (now : ℕ) (serial action : Bytes) (alarms : List Alarm)
    → All (λ a. a.serial ≡ serial) alarms
    → map (is_on now) (dispatch now (some (serial, action)) alarms)
      ≡ map (λ a. member action a.local_actions || is_on now a) alarms
unfolding dispatch
signal-is_on now serial action [] h = refl
signal-is_on now serial action (a ∷ alarms) h =
    ap₂ ◌∷◌ (unlock-is_on now serial action a h.0) (signal-is_on now serial action alarms h.1)

after_call-IsPress :
    (serial action : Bytes) (lock_no now : ℕ) (accepted : Bool) (alarms : List Alarm)
    (r : Option Bool × Option Unlock × Api)
    → All (λ a. a.serial ≡ serial) alarms
    → Unlocked serial lock_no accepted r
    → IsPress serial action lock_no now accepted alarms (after_call serial action r)
unfolding after_call dispatch
after_call-IsPress serial action lock_no now accepted alarms (none, c, s) h (called u a b d e) =
    absurd (cc)
after_call-IsPress serial action lock_no now accepted alarms (none, c, s) h (no_call a b) =
    not_opened (inl a) refl
after_call-IsPress serial action lock_no now accepted alarms (some true, c, s) h
      (called u a b d e) =
    opened u a b d (cc) (signal-is_on now serial action alarms h)
after_call-IsPress serial action lock_no now accepted alarms (some true, c, s) h (no_call a b) =
    absurd (b refl)
after_call-IsPress serial action lock_no now accepted alarms (some false, c, s) h
      (called u a b d e) =
    not_opened (inr (cc)) refl
after_call-IsPress serial action lock_no now accepted alarms (some false, c, s) h (no_call a b) =
    not_opened (inl a) refl

-- Whatever the login and the cloud answer, on sensors of the same doorbell in any state: a press of
-- the gate button opens lock 1, or one of the door button lock 2, of this doorbell, and then exactly
-- the sensors for this action switch on and the others stay as they are; or the lock was not opened,
-- since no call was made or it was refused, and no sensor changes.
pub press-IsPress :
    (serial : Bytes) (now : ℕ) (a : Setup) (accepted : Bool) (s : Api) (alarms : List Alarm)
    → All (λ x. x.serial ≡ serial) alarms
    → let gate = codes "unlock_gate" in
      let door = codes "unlock_door" in
      IsPress serial gate 1 now accepted alarms (press serial gate a accepted s)
      × IsPress serial door 2 now accepted alarms (press serial door a accepted s)
unfolding press equal
press-IsPress serial now a accepted s alarms h =
    let (door, gate) = unlock_lem serial a accepted s in
    (
      after_call-IsPress serial (codes "unlock_gate") 1 now accepted alarms
          (unlock_gate serial a accepted s) h gate,
      after_call-IsPress serial (codes "unlock_door") 2 now accepted alarms
          (unlock_door serial a accepted s) h door,
    )
