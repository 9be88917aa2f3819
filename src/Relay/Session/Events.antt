-- ===== src/Relay/Session/Events.antt =====
-- Every event of tcp_relay.py keeps the invariant of the session.
use ezviz_hp.Base.{
  ℕ, suc, ◌+◌, ◌≤◌, Bool, true, Option, none, some, List, [], ◌∷◌, leb, ◌≡◌, ◌≢◌, refl, arith, inl,
  inr, Bool-cases,
}
use ezviz_hp.Base.Bytes.{Bytes}
use ezviz_hp.Relay.State.{
  Relay, Stats, Pump, no_task, finished, Attempt, Trigger, motion, alarm, manual,
}
use ezviz_hp.Relay.Session.{
  is_pump_alive, cancel_close, reschedule_close, started, can_start, spin_up, count_failure,
  count_trigger, count_prewarm, count_skipped, prewarm, count_client, count_warm_client, connect,
  publish, detach, pump_round, pump_ends, maybe_close, timer,
}
use ezviz_hp.Relay.Session.Step.{
  Event, step, run, prewarmed, connected, published, detached, received, upstream_ended,
  timer_fired, stopped, time_passed,
}
use ezviz_hp.Base.Keeps.{keep_if, keep_test, keep_option}
use ezviz_hp.Relay.Session.{is_writer}
use ezviz_hp.Relay.Session.Wellformed.{
  IsCounted, IsHeld, cold, warm, IsRelay, IsRelay-other, started-IsRelay, teardown-IsRelay,
  reschedule-IsRelay, counting-IsRelay, failure-IsRelay, attempt-IsRelay,
}

prewarmed-IsCounted :
    (t : Trigger) (c : Stats)
    → IsCounted c
    → IsCounted (count_trigger t (record c { prewarms_triggered = suc c.prewarms_triggered }))
unfolding count_trigger
prewarmed-IsCounted motion c h = record {
  skipped = omega (arith, h.skipped);
  reasons = omega (arith, h.reasons);
  warm = h.warm;
  failed = h.failed;
}
prewarmed-IsCounted alarm c h = record {
  skipped = omega (arith, h.skipped);
  reasons = omega (arith, h.reasons);
  warm = h.warm;
  failed = h.failed;
}
prewarmed-IsCounted manual c h = record {
  skipped = omega (arith, h.skipped);
  reasons = omega (arith, h.reasons);
  warm = h.warm;
  failed = h.failed;
}

count_trigger-started :
    (t : Trigger) (c : Stats) → (count_trigger t c).lan_sessions_started ≡ c.lan_sessions_started
unfolding count_trigger
count_trigger-started motion c = refl
count_trigger-started alarm c = refl
count_trigger-started manual c = refl

count_trigger-skipped :
    (t : Trigger) (c : Stats)
    → suc c.prewarms_skipped_already_warm ≤ c.prewarms_triggered
    → suc (count_trigger t c).prewarms_skipped_already_warm ≤ (count_trigger t c).prewarms_triggered
unfolding count_trigger
count_trigger-skipped motion c h = h
count_trigger-skipped alarm c h = h
count_trigger-skipped manual c h = h

prewarm-IsRelay :
    (a : Attempt) (hold : ℕ) (t : Trigger) (s : Relay) → IsRelay s → IsRelay (prewarm a hold t s)
unfolding prewarm count_prewarm count_skipped
prewarm-IsRelay a hold t s h =
    let c = count_prewarm t s in
    let counted = prewarmed-IsCounted t s.stats h.counted in
    let hc : IsRelay c = counting-IsRelay s _ counted (count_trigger-started t _) h in
    elim (Bool-cases (is_pump_alive c)) [
      | inl e ↦ rw e (
          reschedule-IsRelay hold (count_skipped c) (
            counting-IsRelay c _
              (record {
                skipped = count_trigger-skipped t _ (omega (arith, h.counted.skipped));
                reasons = counted.reasons;
                warm = counted.warm;
                failed = counted.failed;
              })
              refl hc))
      | inr e ↦
          rw e (attempt-IsRelay a c (reschedule_close hold) (λ r k. reschedule-IsRelay hold r k) hc)
    ]

cancel-IsRelay : (s : Relay) → IsRelay s → IsRelay (cancel_close s)
unfolding cancel_close
cancel-IsRelay s h =
    IsRelay-other s s.writer none s.now s.session_started_at s.keyframe_seen s.stats h.counted refl
      h

connect-IsRelay : (a : Attempt) (s : Relay) → IsRelay s → IsRelay (connect a s).1
unfolding connect spin_up count_client count_warm_client
connect-IsRelay a s h =
    let c = count_client s in
    let counted : IsCounted c.stats = record {
      skipped = h.counted.skipped;
      reasons = h.counted.reasons;
      warm = omega (arith, h.counted.warm);
      failed = h.counted.failed;
    } in
    let hc = counting-IsRelay s c.stats counted refl h in
    elim (Bool-cases (is_pump_alive c)) [
      | inl e ↦ rw e (
          cancel-IsRelay (count_warm_client c) (
            counting-IsRelay c _
              (record {
                skipped = h.counted.skipped;
                reasons = h.counted.reasons;
                warm = omega (arith, h.counted.warm);
                failed = h.counted.failed;
              })
              refl hc))
      | inr e ↦ rw e (elim (Bool-cases (can_start a)) [
        | inl ok ↦ rw ok (cancel-IsRelay (started c) (started-IsRelay c hc))
        | inr bad ↦ rw bad (teardown-IsRelay (count_failure c) (failure-IsRelay c hc))
      ])
    ]

detach-IsRelay : (viewer : ℕ) (s : Relay) → IsRelay s → IsRelay (detach viewer s)
unfolding detach
detach-IsRelay viewer s h =
    keep_if IsRelay (is_writer viewer s.writer) _ _
      (reschedule-IsRelay 5 (record s { writer = none })
        (IsRelay-other s none s.close_at s.now s.session_started_at s.keyframe_seen s.stats
          h.counted refl h))
      h

timer-IsRelay : (s : Relay) → IsRelay s → IsRelay (timer s)
unfolding timer maybe_close cancel_close
timer-IsRelay s h =
    let fired = cancel-IsRelay s h in
    keep_option IsRelay s.close_at _ _ h (λ t.
      keep_if IsRelay (leb t s.now) _ _
        (keep_option IsRelay s.writer _ _
          (keep_if IsRelay (is_pump_alive s) _ _ (teardown-IsRelay (cancel_close s) fired) fired)
          (λ w. fired))
        h)

-- The running pump may change the buffer and the number of bytes, and end.
IsHeld-pump :
    (s : Relay) (buffer : Bytes) (bytes : ℕ) (pump : Pump) (c : Stats)
    → is_pump_alive s ≡ true
    → pump ≢ no_task
    → IsHeld s
    → IsHeld (record s { buffer = buffer; session_bytes = bytes; pump = pump; stats = c })
unfolding is_pump_alive
IsHeld-pump s buffer bytes pump c e p (cold a b d f) = absurd (cc)
IsHeld-pump s buffer bytes pump c e p (warm i a b d f) = warm i a b d p

buffered-IsRelay :
    (s : Relay) (buffer : Bytes) (bytes : ℕ) (pump : Pump) (c : Stats) (writer : Option ℕ)
    (seen : Bool)
    → IsCounted c
    → c.lan_sessions_started ≡ s.stats.lan_sessions_started
    → is_pump_alive s ≡ true
    → pump ≢ no_task
    → IsRelay s
    → IsRelay (record s {
      buffer = buffer;
      session_bytes = bytes;
      pump = pump;
      stats = c;
      writer = writer;
      keyframe_seen = seen;
    })
buffered-IsRelay s buffer bytes pump c writer seen counted same e p h =
    let s' = record s { buffer = buffer; session_bytes = bytes; pump = pump } in
    IsRelay-other s' writer s'.close_at s'.now s'.session_started_at seen c counted same (record {
      counted = h.counted;
      held = IsHeld-pump s buffer bytes pump s.stats e p h.held;
      sessions = h.sessions;
    })

pump_round-IsRelay :
    (plain : Bytes) (broken : Bool) (s : Relay)
    → is_pump_alive s ≡ true
    → IsRelay s
    → IsRelay (pump_round plain broken s)
unfolding pump_round
pump_round-IsRelay [] broken s e h = h
pump_round-IsRelay (x ∷ plain) broken s e h =
    buffered-IsRelay s _ _ s.pump s.stats _ _ h.counted refl e
      (unfold is_pump_alive in λ f. absurd (cc)) h

pump_ends-IsRelay :
    (failed : Bool) (s : Relay) → is_pump_alive s ≡ true → IsRelay s → IsRelay (pump_ends failed s)
unfolding pump_ends
pump_ends-IsRelay failed s e h =
    buffered-IsRelay s s.buffer s.session_bytes finished _ s.writer s.keyframe_seen
      (record {
        skipped = h.counted.skipped;
        reasons = h.counted.reasons;
        warm = h.counted.warm;
        failed = h.counted.failed;
      })
      refl e (λ f. cc) h

step-IsRelay : (e : Event) (s : Relay) → IsRelay s → IsRelay (step e s)
unfolding step publish
step-IsRelay (prewarmed a hold t) s h = prewarm-IsRelay a hold t s h
step-IsRelay (connected a) s h = connect-IsRelay a s h
step-IsRelay (published viewer) s h =
    IsRelay-other s (some viewer) s.close_at s.now s.session_started_at s.keyframe_seen s.stats
      h.counted refl h
step-IsRelay (detached viewer) s h = detach-IsRelay viewer s h
step-IsRelay (received plain broken) s h =
    keep_test IsRelay (is_pump_alive s) _ _ (λ e. pump_round-IsRelay plain broken s e h) (λ e. h)
step-IsRelay (upstream_ended failed) s h =
    keep_test IsRelay (is_pump_alive s) _ _ (λ e. pump_ends-IsRelay failed s e h) (λ e. h)
step-IsRelay timer_fired s h = timer-IsRelay s h
step-IsRelay stopped s h = teardown-IsRelay s h
step-IsRelay (time_passed n) s h =
    IsRelay-other s s.writer s.close_at (s.now + n) s.session_started_at s.keyframe_seen s.stats
      h.counted refl h

-- In every order of events from a relay that is well formed, the relay stays so: a pump, a buffer or
-- counted bytes only with a LAN client, whose socket is open; and the counters agree.
pub run-IsRelay : (es : List Event) (s : Relay) → IsRelay s → IsRelay (run es s)
run-IsRelay [] s h = h
run-IsRelay (e ∷ es) s h = run-IsRelay es (step e s) (step-IsRelay e s h)
