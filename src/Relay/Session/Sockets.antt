-- ===== src/Relay/Session/Sockets.antt =====
-- The play sockets that the session of tcp_relay.py opens and closes: every event is a move of a small
-- machine.
use ezviz_hp.Base.{
  ℕ, suc, Bool, true, Option, none, some, List, [], ◌∷◌, leb, ◌≡◌, refl, ap, ◌∙◌, inl, inr,
  Bool-cases,
}
use ezviz_hp.Base.Bytes.{Bytes}
use ezviz_hp.Base.Keeps.{keep_if, keep_option}
use ezviz_hp.Relay.State.{Relay, finished, Attempt, Trigger}
use ezviz_hp.Relay.Session.{
  is_pump_alive, cancel_close, reschedule_close, started, can_start, spin_up, without, close_lan,
  teardown, count_failure, count_prewarm, count_skipped, prewarm, count_client, count_warm_client,
  connect, publish, detach, is_writer, pump_round, pump_ends, maybe_close, timer,
}
use ezviz_hp.Relay.Session.Step.{
  Event, step, prewarmed, connected, published, detached, received, upstream_ended, timer_fired,
  stopped, time_passed,
}

-- What the machine sees of the relay.
pub record Lans : Type 0 where
  pub lan : Option ℕ
  pub next_lan : ℕ
  pub open_lans : List ℕ

abbrev pub lans : Relay → Lans
lans s = record { lan = s.lan; next_lan = s.next_lan; open_lans = s.open_lans }

abbrev pub opens : Lans → Lans
opens x = record {
  lan = some x.next_lan;
  next_lan = suc x.next_lan;
  open_lans = x.next_lan ∷ x.open_lans;
}

abbrev pub closes : Lans → Lans
closes x = record x {
  lan = none;
  open_lans = elim x.lan [ none ↦ x.open_lans | some i ↦ without i x.open_lans ];
}

-- The moves: none, a new session over whatever was there, the end of the current one.
pub data Move (x y : Lans) : Type 0 where
  stays : y ≡ x → Move x y
  opened : y ≡ opens x → Move x y
  closed : y ≡ closes x → Move x y

lans-close_lan :
    (o : Option ℕ) (s : Relay)
    → s.lan ≡ none
    → lans (close_lan o s) ≡ record {
      lan = none;
      next_lan = s.next_lan;
      open_lans = elim o [ none ↦ s.open_lans | some i ↦ without i s.open_lans ];
    }
unfolding close_lan
lans-close_lan none s e = rw e
lans-close_lan (some i) s e = rw e

lans-teardown : (s : Relay) → lans (teardown s) ≡ closes (lans s)
unfolding teardown
lans-teardown s = lans-close_lan s.lan _ refl

lans-reschedule : (n : ℕ) (s : Relay) → lans (reschedule_close n s) ≡ lans s
unfolding reschedule_close
lans-reschedule n s = keep_if (λ r. lans r ≡ lans s) (leb n 0) _ _ refl refl

module _ (s : Relay) where
  Moved : Relay → Type 0
  Moved r = Move (lans s) (lans r)

  Moved-prewarm : (a : Attempt) (hold : ℕ) (t : Trigger) → Moved (prewarm a hold t s)
  unfolding Moved prewarm spin_up started count_prewarm count_skipped count_failure
  Moved-prewarm a hold t =
      let c = count_prewarm t s in
      keep_if Moved (is_pump_alive c) _ _ (stays (lans-reschedule hold (count_skipped c)))
        (elim (Bool-cases (can_start a)) [
          | inl ok ↦ rw ok (opened (lans-reschedule hold (started c)))
          | inr bad ↦ rw bad (closed (lans-teardown (count_failure c)))
        ])

  Moved-connect : (a : Attempt) → Moved (connect a s).1
  unfolding Moved connect spin_up started cancel_close count_client count_warm_client count_failure
  Moved-connect a =
      let c = count_client s in
      elim (Bool-cases (is_pump_alive c)) [
        | inl e ↦ rw e (stays refl)
        | inr e ↦ rw e (elim (Bool-cases (can_start a)) [
          | inl ok ↦ rw ok (opened refl)
          | inr bad ↦ rw bad (closed (lans-teardown (count_failure c)))
        ])
      ]

  Moved-timer : Moved (timer s)
  unfolding Moved timer maybe_close
  Moved-timer = keep_option Moved s.close_at _ _ (stays refl) (λ t.
      keep_if Moved (leb t s.now) _ _
        (keep_option Moved s.writer _ _
          (keep_if Moved (is_pump_alive s) _ _
            (closed (lans-teardown (record s { close_at = none }))) (stays refl))
          (λ w. stays refl))
        (stays refl))

  Moved-round : (plain : Bytes) (broken : Bool) → Moved (pump_round plain broken s)
  unfolding Moved pump_round
  Moved-round [] broken = stays refl
  Moved-round (x ∷ plain) broken = stays refl

  -- Every event is a move of the machine.
  pub step-Move : (e : Event) → Move (lans s) (lans (step e s))
  unfolding Moved step publish detach pump_ends
  step-Move (prewarmed a hold t) = Moved-prewarm a hold t
  step-Move (connected a) = Moved-connect a
  step-Move (published viewer) = stays refl
  step-Move (detached viewer) =
      keep_if Moved (is_writer viewer s.writer) _ _
        (stays (lans-reschedule 5 (record s { writer = none }))) (stays refl)
  step-Move (received plain broken) =
      keep_if Moved (is_pump_alive s) _ _ (Moved-round plain broken) (stays refl)
  step-Move (upstream_ended failed) = keep_if Moved (is_pump_alive s) _ _ (stays refl) (stays refl)
  step-Move timer_fired = Moved-timer
  step-Move stopped = closed (lans-teardown s)
  step-Move (time_passed n) = stays refl

-- Where the camera ended the stream, the next session starts with the keyframe gate of the old one: a
-- viewer that connects gets no burst, and yet the gate stands open.
connect_stale :
    (s : Relay) (a : Attempt)
    → s.pump ≡ finished
    → s.keyframe_seen ≡ true
    → can_start a ≡ true
    → let (burst, s') = connect a s in
      (burst ≡ some []) × (s'.buffer ≡ []) × (s'.keyframe_seen ≡ true)
unfolding connect spin_up started cancel_close is_pump_alive count_client
connect_stale s a p k ok =
    let new : connect a s ≡ (some [], cancel_close (started (count_client s))) = rw (p, ok) refl in
    (ap (λ r. r.0) new, ap (λ r. r.1.buffer) new, ap (λ r. r.1.keyframe_seen) new ∙ k)
