-- ===== src/Polling/Alarm/Pulse.antt =====
-- When the alarm sensor of binary_sensor.py pulses, and for how long.
use ezviz_hp.Base.{
  ℕ, ◌+◌, ◌≤◌, ◌<◌, Bool, true, false, not, List, [], ◌∷◌, ◌≡◌, ◌↔◌, ◌⊎◌, inl, inr, refl, sym, ap,
  ◌∙◌, arith, ◌&&◌,
}
use ezviz_hp.Base.Bytes.{All, Bytes}
use ezviz_hp.Base.Dict.{Dict}
use ezviz_hp.Base.Keeps.{keep_test}
use ezviz_hp.Polling.Values.{
  Value, null, flag, number, text, get, same, same_refl, truthy, str, member,
}
use ezviz_hp.Polling.Alarm.{
  Alarm, is_new, pulse, handle_update, is_on, pulse_seconds, has_any, is_null, matches_alarm,
}

-- Updates of the coordinator, one after another.
abbrev pub updates : List (ℕ × Dict Value) → Alarm → Alarm
updates [] s = s
updates ((now, values) ∷ us) s = updates us (handle_update now values s)

-- The update is of an alarm with the time that the sensor remembers.
is_new-same :
    (s : Alarm) (values : Dict Value)
    → get "last_alarm_time" values ≡ s.prev_alarm_time
    → is_new s values ≡ false
unfolding is_new
is_new-same s values e =
    let again : same (get "last_alarm_time" values) s.prev_alarm_time ≡ true =
      ap (λ v. same v s.prev_alarm_time) e ∙ same_refl s.prev_alarm_time in
    ground (arith, again)

-- The sensor has seen an update, and remembers the time that the coordinator shows.
Remembers : Dict Value → Alarm → Type 0
Remembers values s =
    (s.seen_first_update ≡ true) × (s.prev_alarm_time ≡ get "last_alarm_time" values)

negated : (b : Bool) → not b ≡ false → b ≡ true
negated true e = refl
negated false e = absurd (cc)

seen :
    (now : ℕ) (values : Dict Value) (s : Alarm)
    → (s.seen_first_update ≡ false) ⊎ (is_new s values ≡ true)
    → Remembers values (handle_update now values s)
unfolding Remembers handle_update pulse
seen now values s (inl h) = rw h (refl, refl)
seen now values s (inr h) =
    keep_test (Remembers values) (not s.seen_first_update) _ _ (λ e. (refl, refl))
      (λ e. rw h (negated s.seen_first_update e, refl))

unchanged :
    (now : ℕ) (values : Dict Value) (s : Alarm)
    → s.seen_first_update ≡ true
    → get "last_alarm_time" values ≡ s.prev_alarm_time
    → handle_update now values s ≡ s
unfolding handle_update
unchanged now values s h e = ground (arith, h, is_new-same s values e)

settled :
    (us : List (ℕ × Dict Value)) (values : Dict Value) (s : Alarm)
    → Remembers values s
    → All (λ u. get "last_alarm_time" u.1 ≡ get "last_alarm_time" values) us
    → updates us s ≡ s
unfolding Remembers
settled [] values s h a = refl
settled ((now, v) ∷ us) values s h a =
    ap (updates us) (unchanged now v s h.0 (a.0 ∙ sym h.1)) ∙ settled us values s h a.1

-- However often the coordinator shows an alarm time again, the sensor pulses for it no second time;
-- the time of its first update is one for which it pulses not at all.
updates_no_pulse :
    (us : List (ℕ × Dict Value)) (now : ℕ) (values : Dict Value) (s : Alarm)
    → (s.seen_first_update ≡ false) ⊎ (is_new s values ≡ true)
    → All (λ u. get "last_alarm_time" u.1 ≡ get "last_alarm_time" values) us
    → updates us (handle_update now values s) ≡ handle_update now values s
updates_no_pulse us now values s h a =
    settled us values (handle_update now values s) (seen now values s h) a

-- A pulse lasts from its time on for three seconds.
pulse-is_on :
    (s : Alarm) (now later : ℕ)
    → now ≤ later
    → (is_on later (pulse now s) ≡ true) ↔ (later < now + pulse_seconds)
unfolding pulse is_on
pulse-is_on s now later h = ground (arith)

matches_code :
    (x : Bytes) (xs : List Bytes) → member x xs ≡ true → (has_any xs && member x xs) ≡ true
unfolding has_any member
matches_code x [] h = h
matches_code x (y ∷ ys) h = h

truthy-not_null : (v : Value) → truthy v ≡ true → is_null v ≡ false
unfolding truthy is_null
truthy-not_null null h = absurd (cc)
truthy-not_null (flag b) h = refl
truthy-not_null (number p n) h = refl
truthy-not_null (text xs) h = refl

-- An update with a code of the sensor and a time that it does not remember is new.
pub fires :
    (a : Alarm) (values : Dict Value) (code time : Value)
    → get "alarm_type_code" values ≡ code
    → get "last_alarm_time" values ≡ time
    → truthy code ≡ true
    → member (str code) a.match_codes ≡ true
    → truthy time ≡ true
    → same time a.prev_alarm_time ≡ false
    → is_new a values ≡ true
unfolding is_new matches_alarm
fires a values code time c t tc mc tt st =
    let any = matches_code (str code) a.match_codes mc in
    let timed = truthy-not_null time tt in rw (c, t, tc, any, timed, st) refl

pub pulse-is_on_now :
    (now : ℕ) (values : Dict Value) (a : Alarm)
    → a.seen_first_update ≡ true
    → is_new a values ≡ true
    → is_on now (handle_update now values a) ≡ true
unfolding handle_update pulse is_on is_new matches_alarm
pulse-is_on_now now values a seen new = rw (seen, new) (ground arith)
