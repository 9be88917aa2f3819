-- ===== src/Relay/Session/Wellformed.antt =====
-- The invariant of the relay's session in tcp_relay.py, over every order of events.
use ezviz_hp.Base.{
  ℕ, suc, ◌+◌, ◌≤◌, ◌<◌, Bool, true, false, ◌||◌, Option, none, some, List, [], ◌∷◌, leb, ◌==◌, ◌≡◌,
  ◌≢◌, refl, ap, arith, inl, inr, Bool-cases,
}
use ezviz_hp.Relay.State.{Relay, Stats, no_task, Attempt}
use ezviz_hp.Relay.Session.{
  reschedule_close, started, can_start, spin_up, close_lan, teardown, count_failure,
}

-- The counters agree with each other.
pub record IsCounted (c : Stats) : Type 0 where
  pub skipped : c.prewarms_skipped_already_warm ≤ c.prewarms_triggered
  pub reasons : c.prewarms_due_to_motion + c.prewarms_due_to_alarm ≤ c.prewarms_triggered
  pub warm : c.relay_clients_attached_warm ≤ c.relay_clients_attached
  pub failed : c.lan_sessions_failed ≡ c.errors_lan

unfoldable pub is_open : ℕ → List ℕ → Bool
is_open i [] = false
is_open i (j ∷ js) = i == j || is_open i js

-- Without a LAN client there is no pump, no buffer and no open gate; with one, its socket is open
-- and it has been counted.
pub data IsHeld (s : Relay) : Type 0 where
  cold : s.lan ≡ none → s.pump ≡ no_task → s.buffer ≡ [] → s.session_bytes ≡ 0 → IsHeld s
  warm :
      (i : ℕ)
      → s.lan ≡ some i
      → is_open i s.open_lans ≡ true
      → i < s.next_lan
      → s.pump ≢ no_task
      → IsHeld s

pub record IsRelay (s : Relay) : Type 0 where
  pub counted : IsCounted s.stats
  pub held : IsHeld s
  pub sessions : s.next_lan ≡ s.stats.lan_sessions_started

module _ (s : Relay) where
  IsHeld-other :
      (writer close_at : Option ℕ) (now started : ℕ) (seen : Bool) (stats : Stats)
      → IsHeld s
      → IsHeld (record s {
        writer = writer;
        close_at = close_at;
        now = now;
        keyframe_seen = seen;
        session_started_at = started;
        stats = stats;
      })
  IsHeld-other w c n st k t (cold a b d e) = cold a b d e
  IsHeld-other w c n st k t (warm i a b d e) = warm i a b d e

  pub IsRelay-other :
      (writer close_at : Option ℕ) (now started : ℕ) (seen : Bool) (stats : Stats)
      → IsCounted stats
      → stats.lan_sessions_started ≡ s.stats.lan_sessions_started
      → IsRelay s
      → IsRelay (record s {
        writer = writer;
        close_at = close_at;
        now = now;
        keyframe_seen = seen;
        session_started_at = started;
        stats = stats;
      })
  IsRelay-other w c n st k t counted same h = record {
    counted = counted;
    held = IsHeld-other w c n st k t h.held;
    sessions = omega (arith, h.sessions);
  }

  pub started-IsRelay : IsRelay s → IsRelay (started s)
  unfolding started is_open
  started-IsRelay h = record {
    counted = record {
      skipped = h.counted.skipped;
      reasons = h.counted.reasons;
      warm = h.counted.warm;
      failed = h.counted.failed;
    };
    held = warm s.next_lan refl (ground arith) (omega arith) (λ e. cc);
    sessions = omega (arith, h.sessions);
  }

close_lan-IsRelay :
    (o : Option ℕ) (s : Relay)
    → s.lan ≡ none
    → s.pump ≡ no_task
    → s.buffer ≡ []
    → (o ≡ none → s.session_bytes ≡ 0)
    → IsCounted s.stats
    → s.next_lan ≡ s.stats.lan_sessions_started
    → IsRelay (close_lan o s)
unfolding close_lan
close_lan-IsRelay none s a b d e c n = record {
  counted = c;
  held = cold a b d (e refl);
  sessions = n;
}
close_lan-IsRelay (some i) s a b d e c n = elim (Bool-cases (0 == s.session_started_at)) [
  | inl z ↦ record { counted = rw z c; held = cold a b d refl; sessions = rw z n }
  | inr z ↦ record {
    counted =
        rw z
          (record { skipped = c.skipped; reasons = c.reasons; warm = c.warm; failed = c.failed });
    held = cold a b d refl;
    sessions = rw z n;
  }
]

held-bytes : (s : Relay) → IsHeld s → s.lan ≡ none → s.session_bytes ≡ 0
held-bytes s (cold a b d e) h = e
held-bytes s (warm i a b d e) h = cc

pub teardown-IsRelay : (s : Relay) → IsRelay s → IsRelay (teardown s)
unfolding teardown
teardown-IsRelay s h =
    close_lan-IsRelay s.lan _ refl refl refl (held-bytes s h.held) h.counted h.sessions

pub reschedule-IsRelay : (n : ℕ) (s : Relay) → IsRelay s → IsRelay (reschedule_close n s)
unfolding reschedule_close
reschedule-IsRelay n s h = elim (Bool-cases (leb n 0)) [
  | inl e ↦ rw e (
      IsRelay-other s s.writer none s.now s.session_started_at s.keyframe_seen s.stats h.counted
        refl h)
  | inr e ↦ rw e (
      IsRelay-other s s.writer (some (s.now + n)) s.now s.session_started_at s.keyframe_seen s.stats
        h.counted refl h)
]

-- A change of counters alone.
pub counting-IsRelay :
    (s : Relay) (stats : Stats)
    → IsCounted stats
    → stats.lan_sessions_started ≡ s.stats.lan_sessions_started
    → IsRelay s
    → IsRelay (record s { stats = stats })
counting-IsRelay s stats c e h =
    IsRelay-other s s.writer s.close_at s.now s.session_started_at s.keyframe_seen stats c e h

pub failure-IsRelay : (s : Relay) → IsRelay s → IsRelay (count_failure s)
unfolding count_failure
failure-IsRelay s h =
    counting-IsRelay s _
      (record {
        skipped = h.counted.skipped;
        reasons = h.counted.reasons;
        warm = h.counted.warm;
        failed = ap suc h.counted.failed;
      })
      refl h

-- An attempt to start, with what follows either way.
pub attempt-IsRelay :
    (a : Attempt) (s : Relay) (f : Relay → Relay)
    → ((r : Relay) → IsRelay r → IsRelay (f r))
    → IsRelay s
    → IsRelay (elim (spin_up a s) [ none ↦ teardown (count_failure s) | some s' ↦ f s' ])
unfolding spin_up
attempt-IsRelay a s f k h = elim (Bool-cases (can_start a)) [
  | inl e ↦ rw e (k (started s) (started-IsRelay s h))
  | inr e ↦ rw e (teardown-IsRelay (count_failure s) (failure-IsRelay s h))
]
