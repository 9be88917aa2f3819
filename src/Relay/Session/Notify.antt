-- ===== src/Relay/Session/Notify.antt =====
-- What the camera shows of the relay: `has_active_viewer`, `is_warm` and the state listener of
-- tcp_relay.py, which `_notify_state_change` calls, and `is_streaming` of camera.py.
use ezviz_hp.Base.{
  ℕ, Bool, true, false, not, ◌&&◌, ◌||◌, Option, none, some, List, [], ◌∷◌, leb, if◌then◌else◌, ◌≡◌,
  refl, sym, arith, ap, ◌∙◌, Bool-cases, inl, inr,
}
use ezviz_hp.Base.Bytes.{Bytes, All}
use ezviz_hp.Relay.State.{Relay, Attempt, Trigger}
use ezviz_hp.Relay.Session.{
  is_pump_alive, cancel_close, reschedule_close, prewarm, count_prewarm, count_skipped, connect,
  count_client, count_warm_client, is_writer, detach, pump_round, maybe_close, timer,
}
use ezviz_hp.Relay.Session.Step.{
  Event, step, run, prewarmed, connected, published, detached, received, upstream_ended,
  timer_fired, stopped, time_passed,
}

-- `has_active_viewer`
unfoldable pub has_active_viewer : Relay → Bool
has_active_viewer s = elim s.writer [ none ↦ false | some w ↦ true ]

-- `is_streaming` of the camera
unfoldable pub is_streaming : Option Relay → Bool
is_streaming none = false
is_streaming (some s) = has_active_viewer s || is_pump_alive s

-- the calls of `_notify_state_change` in `_maybe_close_upstream`
maybe_close_notifies : Relay → Bool
maybe_close_notifies s = elim s.writer [ some _ ↦ false | none ↦ is_pump_alive s ]

-- those in a round of `_pump_upstream`
pump_round_notifies : Bytes → Bool → Relay → Bool
pump_round_notifies [] writer_broken s = false
pump_round_notifies (x ∷ plain) writer_broken s = writer_broken && has_active_viewer s

-- whether `_notify_state_change` is called in an event
unfoldable pub notifies : Event → Relay → Bool
unfolding maybe_close_notifies pump_round_notifies is_writer
notifies (prewarmed a hold t) s = not (is_pump_alive s)
notifies (connected a) s = not (is_pump_alive s)
notifies (published viewer) s = true
notifies (detached viewer) s = is_writer viewer s.writer
notifies (received plain broken) s = is_pump_alive s && pump_round_notifies plain broken s
notifies (upstream_ended failed) s = false
notifies timer_fired s = elim s.close_at [
  | none ↦ false
  | some t ↦ leb t s.now && maybe_close_notifies s
]
notifies stopped s = true
notifies (time_passed seconds) s = false

-- What the listener depends on is the same in two states.
pub record Same (s t : Relay) : Type 0 where
  pub viewer : has_active_viewer t ≡ has_active_viewer s
  pub warm : is_pump_alive t ≡ is_pump_alive s

Same-refl : (s : Relay) → Same s s
Same-refl s = record { viewer = refl; warm = refl }

timer-Same : (s : Relay) → notifies timer_fired s ≡ false → Same s (timer s)
unfolding notifies timer maybe_close maybe_close_notifies has_active_viewer is_pump_alive
timer-Same s h = record { viewer = ground arith; warm = ground arith }

received-Same :
    (plain : Bytes) (broken : Bool) (s : Relay)
    → notifies (received plain broken) s ≡ false
    → Same s (step (received plain broken) s)
unfolding notifies step pump_round_notifies pump_round has_active_viewer is_pump_alive
received-Same [] broken s h = record { viewer = ground arith; warm = ground arith }
received-Same (x ∷ plain) broken s h = record { viewer = ground arith; warm = ground arith }

detached-Same :
    (viewer : ℕ) (s : Relay) → is_writer viewer s.writer ≡ false → Same s (detach viewer s)
unfolding detach
detached-Same viewer s h = rw h (Same-refl s)

prewarmed-Same :
    (a : Attempt) (hold : ℕ) (t : Trigger) (s : Relay)
    → is_pump_alive s ≡ true
    → Same s (prewarm a hold t s)
unfolding prewarm count_prewarm count_skipped reschedule_close has_active_viewer is_pump_alive
prewarmed-Same a hold t s h = record { viewer = ground (arith, h); warm = ground (arith, h) }

connected-Same : (a : Attempt) (s : Relay) → is_pump_alive s ≡ true → Same s (connect a s).1
unfolding connect count_client count_warm_client cancel_close has_active_viewer is_pump_alive
connected-Same a s h = record { viewer = ground (arith, h); warm = ground (arith, h) }

-- whether an event is the end of the stream of the camera
abbrev pub is_end : Event → Bool
is_end (upstream_ended failed) = true
is_end _ = false

step-Same : (e : Event) (s : Relay) → is_end e ≡ false → notifies e s ≡ false → Same s (step e s)
unfolding notifies step has_active_viewer is_pump_alive
step-Same (prewarmed a hold t) s q h = prewarmed-Same a hold t s (ground arith)
step-Same (connected a) s q h = connected-Same a s (ground arith)
step-Same (published viewer) s q h = absurd (cc)
step-Same (detached viewer) s q h = detached-Same viewer s h
step-Same (received plain broken) s q h = received-Same plain broken s h
step-Same (upstream_ended failed) s q h = absurd (cc)
step-Same timer_fired s q h = timer-Same s h
step-Same stopped s q h = absurd (cc)
step-Same (time_passed seconds) s q h = record { viewer = refl; warm = refl }

-- What the camera shows after some events, if it shows `b` before: it is written anew with each call
-- of the listener.
pub shown : List Event → Relay → Bool → Bool
shown [] s b = b
shown (e ∷ es) s b =
    let s' = step e s in shown es s' (if notifies e s then is_streaming (some s') else b)

Same-is_streaming : (s t : Relay) → Same s t → is_streaming (some t) ≡ is_streaming (some s)
unfolding is_streaming
Same-is_streaming s t h = rw (h.viewer, h.warm)

-- In every order of events without an end of the camera's stream, the camera shows in the end what
-- is so, if it does at first.
pub shown-is_streaming :
    (es : List Event) (s : Relay)
    → All (λ e. is_end e ≡ false) es
    → shown es s (is_streaming (some s)) ≡ is_streaming (some (run es s))
unfolding shown
shown-is_streaming [] s a = refl
shown-is_streaming (e ∷ es) s a =
    let s' = step e s in
    ap (shown es s') (elim (Bool-cases (notifies e s)) [
      | inl called ↦ ap (λ c. if c then is_streaming (some s') else is_streaming (some s)) called
      | inr quiet ↦
          ap (λ c. if c then is_streaming (some s') else is_streaming (some s)) quiet
          ∙ sym (Same-is_streaming s s' (step-Same e s a.0 quiet))
    ])
    ∙ shown-is_streaming es s' a.1
