-- ===== src/Polling/Coordinator/Cadence.antt =====
-- What a tick of coordinator.py hands out, when it fails, and how often it asks for the static data.
use ezviz_hp.Base.{
  ℕ, suc, ◌+◌, ◌-◌, ◌*◌, ◌≤◌, String, Bool, true, false, not, ◌&&◌, Option, none, some, List, [],
  ◌∷◌, leb, if◌then◌else◌, ◌≡◌, ◌⊎◌, ◌↔◌, inl, inr, refl, sym, ap, ◌∙◌, arith, Bool-cases,
  Option-cases,
}
use ezviz_hp.Base.Dict.{Dict, lookup, merge, first_of_two, lookup-merge}
use ezviz_hp.Base.Bytes.{All}
use ezviz_hp.Base.Keeps.{keep_test, keep_split}
use ezviz_hp.Polling.Values.{Value, get, truthy, same}
use ezviz_hp.Polling.Coordinator.{
  Coordinator, Tick, is_due, is_empty, refresh_static, finish, conclude, update_data, run,
  status_poll_interval_sec,
}

-- What a tick does to the three fields of the slow poll: nothing, or it takes the new answer.
pub data SlowPoll (t : Tick) (s s' : Coordinator) : Type 0 where
  not_asked :
      s'.cached_static ≡ s.cached_static
      → s'.last_static_fetch ≡ s.last_static_fetch
      → s'.cloud_polls_static ≡ s.cloud_polls_static
      → SlowPoll t s s'
  fetched :
      (d : Dict Value)
      → t.static ≡ some d
      → is_due t.now s.last_static_fetch ≡ true
      → s'.cached_static ≡ d
      → s'.last_static_fetch ≡ some t.now
      → s'.cloud_polls_static ≡ suc s.cloud_polls_static
      → SlowPoll t s s'

module _ (t : Tick) (s : Coordinator) where
  same_fields :
      (s' : Coordinator) (logged : Value)
      → SlowPoll t s s'
      → SlowPoll t s (record s' { last_logged_alarm_time = logged })
  same_fields s' logged (not_asked a b c) = not_asked a b c
  same_fields s' logged (fetched d e f a b c) = fetched d e f a b c

  conclude-SlowPoll :
      (alarms : Dict Value) (b : Bool) (s' : Coordinator)
      → SlowPoll t s s'
      → SlowPoll t s (conclude alarms (b, s')).1
  unfolding conclude finish
  conclude-SlowPoll alarms false s' h = h
  conclude-SlowPoll alarms true s' h =
      elim (Bool-cases (
        truthy (get "last_alarm_time" (merge s'.cached_static alarms))
        && not (
            same (get "last_alarm_time" (merge s'.cached_static alarms))
              s'.last_logged_alarm_time))) [
                | inl e ↦
                    rw e (same_fields s' (get "last_alarm_time" (merge s'.cached_static alarms)) h)
                | inr e ↦ rw e h
              ]

  refresh-SlowPoll :
      (r : Coordinator)
      → r.cached_static ≡ s.cached_static
      → r.last_static_fetch ≡ s.last_static_fetch
      → r.cloud_polls_static ≡ s.cloud_polls_static
      → is_due t.now s.last_static_fetch ≡ true
      → SlowPoll t s (refresh_static t r).1
  unfolding refresh_static
  refresh-SlowPoll r a b c due =
      keep_split (λ (p : Bool × Coordinator). SlowPoll t s p.1) t.static _ _ (λ e. not_asked a b c)
        (λ d e. fetched d e due refl refl (ap suc c))

  -- A tick asks for the static data only where it is due.
  update-SlowPoll : SlowPoll t s (update_data t s).1
  unfolding update_data
  update-SlowPoll =
      keep_split (λ (p : Option (Dict Value × Bool) × Coordinator). SlowPoll t s p.1) t.alarms _ _
        (λ e. not_asked refl refl refl)
        (λ alarms e.
          keep_test (λ (p : Bool × Coordinator). SlowPoll t s (conclude alarms p).1)
            (is_due t.now s.last_static_fetch) _ _
            (λ due. conclude-SlowPoll alarms _ _ (refresh-SlowPoll _ refl refl refl due))
            (λ early. conclude-SlowPoll alarms true _ (not_asked refl refl refl)))

-- At most one slow poll in 300 seconds, from the time `t0` on.
pub data IsPaced (t0 : ℕ) (s : Coordinator) : Type 0 where
  never : s.last_static_fetch ≡ none → s.cloud_polls_static ≡ 0 → IsPaced t0 s
  last_at :
      (last : ℕ)
      → s.last_static_fetch ≡ some last
      → t0 + s.cloud_polls_static * status_poll_interval_sec ≤ last + status_poll_interval_sec
      → IsPaced t0 s

SlowPoll-IsPaced :
    (t0 : ℕ) (t : Tick) (s s' : Coordinator)
    → t0 ≤ t.now
    → SlowPoll t s s'
    → IsPaced t0 s
    → IsPaced t0 s'
unfolding is_due
SlowPoll-IsPaced t0 t s s' h (not_asked a b c) (never e z) = never (b ∙ e) (c ∙ z)
SlowPoll-IsPaced t0 t s s' h (not_asked a b c) (last_at l e p) =
    last_at l (b ∙ e) (omega (arith, c, p))
SlowPoll-IsPaced t0 t s s' h (fetched d e due a b c) (never n z) =
    last_at t.now b (omega (arith, c, z, h))
SlowPoll-IsPaced t0 t s s' h (fetched d e due a b c) (last_at l n p) =
    let late : leb 300 (t.now - l) ≡ true = sym (ap (is_due t.now) n) ∙ due in
    let gap : 300 ≤ t.now - l = ground arith in last_at t.now b (omega (arith, c, p, gap))

-- However many ticks there are after `t0`, and whatever the cloud answers: there are no slow polls,
-- or the successful ones, but one, have taken 300 seconds each since `t0`.
pub run-IsPaced :
    (t0 : ℕ) (ts : List Tick) (s : Coordinator)
    → All (λ t. t0 ≤ t.now) ts
    → IsPaced t0 s
    → IsPaced t0 (run ts s)
run-IsPaced t0 [] s a h = h
run-IsPaced t0 (t ∷ ts) s a h =
    run-IsPaced t0 ts (update_data t s).1 a.1
      (SlowPoll-IsPaced t0 t s (update_data t s).1 a.0 (update-SlowPoll t s) h)

true≢false : true ≡ false → ⊥
true≢false e = cc

some≢none : {A : Type 0} {a : A} → ◌≡◌ {A = Option A} (some a) none → ⊥
some≢none e = cc

conclude_fails :
    (alarms : Dict Value) (p : Bool × Coordinator) → ((conclude alarms p).0 ≡ none) ↔ (p.0 ≡ false)
unfolding conclude
conclude_fails alarms (false, s) = (λ e. refl, λ e. refl)
conclude_fails alarms (true, s) = (λ e. absurd (some≢none e), λ e. absurd (true≢false e))

is_empty_iff : (d : Dict Value) → (not (is_empty d) ≡ false) ↔ (d ≡ [])
unfolding is_empty
is_empty_iff [] = (λ e. refl, λ e. refl)
is_empty_iff (x ∷ d) = (λ e. absurd (cc), λ e. absurd (cc))

refresh_fails :
    (t : Tick) (s : Coordinator)
    → ((refresh_static t s).0 ≡ false) ↔ ((t.static ≡ none) × (s.cached_static ≡ []))
unfolding refresh_static
refresh_fails t s =
    keep_split
      (λ (p : Bool × Coordinator). (p.0 ≡ false) ↔ ((t.static ≡ none) × (s.cached_static ≡ [])))
      t.static _ _
      (λ e. (
        λ h. (e, (is_empty_iff s.cached_static).0 h),
        λ (n, h). (is_empty_iff s.cached_static).1 h,
      ))
      (λ d e. (λ h. absurd (true≢false h), λ (n, h). absurd (some≢none (sym e ∙ n))))

-- What the slow poll of a tick comes to.
slow : (t : Tick) (s : Coordinator) → Bool × Coordinator
slow t s =
    let counted = record s {
      cloud_polls = suc s.cloud_polls;
      cloud_polls_alarms = suc s.cloud_polls_alarms;
    } in
    if is_due t.now s.last_static_fetch then refresh_static t counted else (true, counted)

slow_fails :
    (t : Tick) (s : Coordinator)
    → ((slow t s).0 ≡ false)
      ↔ ((is_due t.now s.last_static_fetch ≡ true) × (t.static ≡ none) × (s.cached_static ≡ []))
unfolding slow
slow_fails t s =
    keep_test
      (λ (p : Bool × Coordinator).
        (p.0 ≡ false)
        ↔ ((is_due t.now s.last_static_fetch ≡ true) × (t.static ≡ none) × (s.cached_static ≡ [])))
      (is_due t.now s.last_static_fetch) _ _
      (λ due. (
        λ h. let (n, r) = (refresh_fails t _).0 h in (due, n, r),
        λ (d, h, r). (refresh_fails t _).1 (h, r),
      ))
      (λ early. (λ h. absurd (true≢false h), λ (d, h, r). absurd (true≢false (sym d ∙ early))))

update-slow :
    (t : Tick) (s : Coordinator) (alarms : Dict Value)
    → t.alarms ≡ some alarms
    → update_data t s ≡ conclude alarms (slow t s)
unfolding update_data slow
update-slow t s alarms e =
    keep_split (λ p. p ≡ conclude alarms (slow t s)) t.alarms _ _ (λ n. absurd (cc))
      (λ a f. let same : a ≡ alarms = cc in ap (λ x. conclude x (slow t s)) same)

update_no_alarms : (t : Tick) (s : Coordinator) → t.alarms ≡ none → (update_data t s).0 ≡ none
unfolding update_data
update_no_alarms t s e =
    keep_split (λ (p : Option (Dict Value × Bool) × Coordinator). p.0 ≡ none) t.alarms _ _
      (λ n. refl) (λ a f. absurd (cc))

-- A tick fails exactly where the alarms cannot be had, or the static data is due, cannot be had, and
-- none is kept.
update_fails :
    (t : Tick) (s : Coordinator)
    → ((update_data t s).0 ≡ none) ↔ (
        (t.alarms ≡ none)
        ⊎ ((is_due t.now s.last_static_fetch ≡ true) × (t.static ≡ none) × (s.cached_static ≡ [])))
update_fails t s = elim (Option-cases t.alarms) [
  | inl e ↦ (λ h. inl e, λ h. update_no_alarms t s e)
  | inr (alarms, e) ↦
      let whole = ap (λ p. p.0) (update-slow t s alarms e) in
      (
        λ h. inr ((slow_fails t s).0 ((conclude_fails alarms (slow t s)).0 (sym whole ∙ h))),
        λ h. elim h [
          | inl n ↦ update_no_alarms t s n
          | inr r ↦ whole ∙ (conclude_fails alarms (slow t s)).1 ((slow_fails t s).1 r)
        ],
      )
]

conclude-merge :
    (alarms d : Dict Value) (logged : Bool) (p : Bool × Coordinator)
    → (conclude alarms p).0 ≡ some (d, logged)
    → d ≡ merge (conclude alarms p).1.cached_static alarms
unfolding conclude finish
conclude-merge alarms d logged (false, s) h = absurd (cc)
conclude-merge alarms d logged (true, s) h = ground arith

-- Where a tick hands out data, each key has its value of the alarms, and where they have none, its
-- value of the static data kept after the tick.
pub update-lookup :
    (t : Tick) (s : Coordinator) (alarms d : Dict Value) (logged : Bool) (k : String)
    → t.alarms ≡ some alarms
    → (update_data t s).0 ≡ some (d, logged)
    → lookup k d ≡ first_of_two (lookup k alarms) (lookup k (update_data t s).1.cached_static)
update-lookup t s alarms d logged k e h =
    let whole = update-slow t s alarms e in
    let merged = conclude-merge alarms d logged (slow t s) (sym (ap (λ p. p.0) whole) ∙ h) in
    ap (lookup k) merged
    ∙ lookup-merge k (conclude alarms (slow t s)).1.cached_static alarms
    ∙ sym (ap (λ p. first_of_two (lookup k alarms) (lookup k p.1.cached_static)) whole)
