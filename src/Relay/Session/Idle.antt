-- ===== src/Relay/Session/Idle.antt =====
-- When the relay of tcp_relay.py closes a session that nobody watches, and when it does not.
use ezviz_hp.Base.{
  Bool, ℕ, ◌≤◌, ◌<◌, true, false, Option, none, some, List, [], ◌∷◌, ◌≡◌, refl, arith,
}
use ezviz_hp.Base.Bytes.{Bytes}
use ezviz_hp.Relay.State.{Relay, no_task, alive}
use ezviz_hp.Relay.Session.{
  is_pump_alive, cancel_close, without, close_lan, teardown, maybe_close, timer,
}
use ezviz_hp.Relay.Session.Step.{Event, detached, received, timer_fired, time_passed}
use ezviz_hp.Relay.Session.Wellformed.{is_open}

-- What is left of a session that was torn down.
pub record IsCold (s : Relay) : Type 0 where
  pub lan : s.lan ≡ none
  pub pump : s.pump ≡ no_task
  pub buffer : s.buffer ≡ []
  pub close_at : s.close_at ≡ none
  pub gate : s.keyframe_seen ≡ false

is_open-without_self : (i : ℕ) (js : List ℕ) → is_open i (without i js) ≡ false
unfolding is_open without
is_open-without_self i [] = refl
is_open-without_self i (j ∷ js) = ground (arith, is_open-without_self i js)

-- whether the socket of a session is open
abbrev pub has_open : Option ℕ → List ℕ → Bool
has_open none js = false
has_open (some i) js = is_open i js

close_lan-IsCold :
    (o : Option ℕ) (s : Relay)
    → IsCold s
    → IsCold (close_lan o s) × (has_open o (close_lan o s).open_lans ≡ false)
unfolding close_lan
close_lan-IsCold none s h = (h, refl)
close_lan-IsCold (some j) s h = (
  record { lan = h.lan; pump = h.pump; buffer = h.buffer; close_at = h.close_at; gate = h.gate },
  is_open-without_self j s.open_lans,
)

-- `_teardown_upstream` leaves nothing of the session, closes its socket, and is idempotent.
pub teardown-IsCold :
    (s : Relay)
    → IsCold (teardown s)
      × (has_open s.lan (teardown s).open_lans ≡ false)
      × (teardown (teardown s) ≡ teardown s)
unfolding teardown close_lan
teardown-IsCold s =
    let s' = record s {
      close_at = none;
      pump = no_task;
      lan = none;
      buffer = [];
      keyframe_seen = false;
    } in
    let (cold, shut) =
      close_lan-IsCold s.lan s'
        (record { lan = refl; pump = refl; buffer = refl; close_at = refl; gate = refl }) in
    (cold, shut, again s.lan)
  where
    again :
        (o : Option ℕ)
        → let r = close_lan o (record s {
          close_at = none;
          pump = no_task;
          lan = none;
          buffer = [];
          keyframe_seen = false;
        }) in
          close_lan r.lan (record r {
            close_at = none;
            pump = no_task;
            lan = none;
            buffer = [];
            keyframe_seen = false;
          })
          ≡ r
    again none = refl
    again (some i) = refl

-- The timer: before its time nothing happens; at its time, or later, a session without a viewer is
-- torn down, and with a viewer only the timer goes.
pub timer_lem :
    (s : Relay) (t : ℕ)
    → s.close_at ≡ some t
    → is_pump_alive s ≡ true
    → (s.now < t → timer s ≡ s)
      × (t ≤ s.now → s.writer ≡ none → timer s ≡ teardown (cancel_close s))
      × ((viewer : ℕ) → t ≤ s.now → s.writer ≡ some viewer → timer s ≡ cancel_close s)
unfolding timer maybe_close cancel_close
timer_lem s t c a =
    (λ early. ground (arith), λ late w. ground (arith), λ viewer late w. ground (arith))

-- A live session with no viewer and no timer.
pub record IsIdle (s : Relay) : Type 0 where
  pub pump : s.pump ≡ alive
  pub writer : s.writer ≡ none
  pub close_at : s.close_at ≡ none

-- The events in which neither a client, nor a prewarm, nor the camera, nor a stop takes part.
abbrev pub IsQuiet : Event → Type 0
IsQuiet (received plain broken) = Unit
IsQuiet (detached viewer) = Unit
IsQuiet timer_fired = Unit
IsQuiet (time_passed n) = Unit
IsQuiet _ = ⊥
