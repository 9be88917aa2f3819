-- ===== src/Relay/Watchdog.antt =====
-- The watchdog of `_pump_upstream` in custom_components/ezviz_hp7/tcp_relay.py, which counts a camera
-- that sends nothing.
use ezviz_hp.Base.{
  ℕ, zero, suc, ◌+◌, Bool, true, false, List, [], ◌∷◌, ltb, if◌then◌else◌, ◌≡◌, refl, ◌∙◌, arith,
}

-- the task of the watchdog
pub data Task : Type 0 where
  waiting : Task
  cancelled : Task
  done : Task

-- the locals of `_pump_upstream` that the watchdog has to do with, and the counter
pub record Pumping : Type 0 where
  pub raw_bytes_total : ℕ
  pub watchdog : Task
  pub reads : Bool
  pub lan_handshakes_no_payload : ℕ

-- What happens: a read of some bytes, none at the end; an exception or a cancellation; the end of the
-- sleep of the watchdog.
pub data Beat : Type 0 where
  raw : ℕ → Beat
  failed : Beat
  slept : Beat

cancel : Task → Task
cancel waiting = cancelled
cancel t = t

-- the loop ends, with its `finally`
finish_pump : Pumping → Pumping
finish_pump s = record s { watchdog = cancel s.watchdog; reads = false }

-- `_warn_no_raw_bytes`, after its sleep
warn_no_raw_bytes : Pumping → Pumping
warn_no_raw_bytes s =
    let over = record s { watchdog = done } in
    if ltb 0 s.raw_bytes_total
    then over
    else record over { lan_handshakes_no_payload = suc s.lan_handshakes_no_payload }

read_raw : ℕ → Pumping → Pumping
read_raw zero s = finish_pump s
read_raw (suc n) s = record s {
  watchdog = cancel s.watchdog;
  raw_bytes_total = s.raw_bytes_total + suc n;
}

unfoldable pub beat : Beat → Pumping → Pumping
unfolding read_raw finish_pump warn_no_raw_bytes cancel
beat (raw n) s = if s.reads then read_raw n s else s
beat failed s = if s.reads then finish_pump s else s
beat slept s = elim s.watchdog [ waiting ↦ warn_no_raw_bytes s | _ ↦ s ]

abbrev pub beats : List Beat → Pumping → Pumping
beats [] s = s
beats (b ∷ bs) s = beats bs (beat b s)

-- at the start of the pump
abbrev pub start_pump : ℕ → Pumping
start_pump counted = record {
  raw_bytes_total = 0;
  watchdog = waiting;
  reads = true;
  lan_handshakes_no_payload = counted;
}

-- whether the sleep is over before anything is read and before the loop ends
abbrev pub is_silent : List Beat → Bool
is_silent (slept ∷ bs) = true
is_silent _ = false

is_over : Task → Bool
is_over waiting = false
is_over _ = true

beat_over :
    (b : Beat) (s : Pumping)
    → is_over s.watchdog ≡ true
    → (is_over (beat b s).watchdog ≡ true)
      × ((beat b s).lan_handshakes_no_payload ≡ s.lan_handshakes_no_payload)
unfolding beat is_over
beat_over (raw zero) s h = (ground (arith, h), ground (arith, h))
beat_over (raw (suc n)) s h = (ground (arith, h), ground (arith, h))
beat_over failed s h = (ground (arith, h), ground (arith, h))
beat_over slept s h = (ground (arith, h), ground (arith, h))

over_stays :
    (bs : List Beat) (s : Pumping)
    → is_over s.watchdog ≡ true
    → (beats bs s).lan_handshakes_no_payload ≡ s.lan_handshakes_no_payload
over_stays [] s h = refl
over_stays (b ∷ bs) s h = let (over, same) = beat_over b s h in over_stays bs (beat b s) over ∙ same

-- Whatever happens in a pump, it counts a silent camera once, if the sleep of the watchdog is over
-- before the first read and the end, and not at all otherwise.
beats-count :
    (bs : List Beat) (counted : ℕ)
    → (beats bs (start_pump counted)).lan_handshakes_no_payload
      ≡ (if is_silent bs then suc counted else counted)
unfolding beat is_over
beats-count [] counted = refl
beats-count (raw zero ∷ bs) counted = over_stays bs (beat (raw zero) (start_pump counted)) refl
beats-count (raw (suc n) ∷ bs) counted =
    over_stays bs (beat (raw (suc n)) (start_pump counted)) refl
beats-count (failed ∷ bs) counted = over_stays bs (beat failed (start_pump counted)) refl
beats-count (slept ∷ bs) counted = over_stays bs (beat slept (start_pump counted)) refl
