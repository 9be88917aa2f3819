-- ===== src/Relay/Session/Viewer.antt =====
-- What a viewer of tcp_relay.py is sent: the burst of `_handle_client`, and what `_pump_upstream` forwards
-- once the writer is published.
use ezviz_hp.Base.{
  ℕ, ◌==◌, Bool, true, false, Option, none, some, List, [], ◌∷◌, ◌++◌, ◌≡◌, refl, sym, ap, ◌∙◌,
  if◌then◌else◌, append_assoc, append-nil, arith,
}
use mathlib.Core.Path.{subst}
use ezviz_hp.Base.Bytes.{Bytes}
use ezviz_hp.Cpd7.Decoder.Segments.{concat}
use ezviz_hp.Relay.Buffer.{snapshot_buffer}
use ezviz_hp.Relay.Snapshot.Bounded.{Alike, extend-Alike, Alike-snapshot}
use ezviz_hp.Relay.State.{Relay, Attempt, Pump, alive}
use ezviz_hp.Relay.Session.{
  spin_up, teardown, count_failure, is_pump_alive, is_writer, cancel_close, count_client,
  count_warm_client, connect, burst_after_wait, publish, detach, pump_round,
}

-- what a round of the pump writes to a viewer
forwarded_to : ℕ → Bytes → Relay → Bytes
forwarded_to viewer plain s = if is_writer viewer s.writer then plain else []

-- rounds of the pump in which no writer breaks
unfoldable pub rounds : List Bytes → Relay → Relay
rounds [] s = s
rounds (x ∷ xs) s = rounds xs (pump_round x false s)

-- such rounds, with what they write to a viewer
unfoldable pub deliver : ℕ → List Bytes → Relay → Bytes × Relay
unfolding forwarded_to is_writer
deliver viewer [] s = ([], s)
deliver viewer (x ∷ xs) s =
    let (rest, s') = deliver viewer xs (pump_round x false s) in
    (forwarded_to viewer x s ++ rest, s')

-- the wait for a keyframe, where the burst is empty
unfoldable pub wait_if_empty : Bytes → List Bytes → Relay → Relay
wait_if_empty [] waiting s = rounds waiting s
wait_if_empty (x ∷ burst) waiting s = s

-- the rest of `_handle_client`: the plaintext that comes in the wait, while the burst is written, and once
-- the writer is published
view : ℕ → List Bytes → List Bytes → List Bytes → Bytes → Relay → Bytes × Relay
unfolding wait_if_empty
view viewer waiting between live burst s =
    let waited = wait_if_empty burst waiting s in
    let (sent, s') = deliver viewer live (publish viewer (rounds between waited)) in
    (burst_after_wait burst waited ++ sent, s')

-- `_handle_client`, as far as a viewer that stays sees it
unfoldable pub watch : Attempt → ℕ → List Bytes → List Bytes → List Bytes → Relay → Bytes × Relay
unfolding view
watch a viewer waiting between live s =
    let (burst, s') = connect a s in
    elim burst [ none ↦ ([], s') | some b ↦ view viewer waiting between live b s' ]

-- the rest of `_handle_client` for a viewer that has gone before anything is written to it: the write of
-- its burst raises; with nothing to write it is published, and the read finds the end
unfoldable pub leave_with : ℕ → List Bytes → Bytes → Relay → Relay
unfolding wait_if_empty
leave_with viewer waiting burst s =
    let waited = wait_if_empty burst waiting s in
    elim (burst_after_wait burst waited) [
      | [] ↦ detach viewer (publish viewer waited)
      | x ∷ xs ↦ detach viewer waited
    ]

-- `_handle_client` for such a viewer
unfoldable pub leave : Attempt → ℕ → List Bytes → Relay → Relay
unfolding leave_with
leave a viewer waiting s =
    let (burst, s') = connect a s in
    elim burst [ none ↦ s' | some b ↦ leave_with viewer waiting b s' ]

round-buffer :
    (x : Bytes) (s : Relay) (all : Bytes)
    → Alike s.buffer all
    → Alike (pump_round x false s).buffer (all ++ x)
unfolding pump_round
round-buffer [] s all h = rw append-nil h
round-buffer (x ∷ plain) s all h = extend-Alike s.buffer all (x ∷ plain) h

rounds-buffer :
    (xs : List Bytes) (s : Relay) (all : Bytes)
    → Alike s.buffer all
    → Alike (rounds xs s).buffer (all ++ concat xs)
unfolding rounds
rounds-buffer [] s all h = rw append-nil h
rounds-buffer (x ∷ xs) s all h =
    subst (Alike (rounds xs (pump_round x false s)).buffer) (append_assoc all x (concat xs))
      (rounds-buffer xs (pump_round x false s) (all ++ x) (round-buffer x s all h))

round-alive : (x : Bytes) (s : Relay) → (pump_round x false s).pump ≡ s.pump
unfolding pump_round
round-alive [] s = refl
round-alive (x ∷ plain) s = refl

pub rounds-alive : (xs : List Bytes) (s : Relay) → (rounds xs s).pump ≡ s.pump
unfolding rounds
rounds-alive [] s = refl
rounds-alive (x ∷ xs) s = rounds-alive xs (pump_round x false s) ∙ round-alive x s

round-writer : (x : Bytes) (s : Relay) → (pump_round x false s).writer ≡ s.writer
unfolding pump_round
round-writer [] s = refl
round-writer (x ∷ plain) s = refl

deliver_lem :
    (viewer : ℕ) (xs : List Bytes) (s : Relay)
    → s.writer ≡ some viewer
    → deliver viewer xs s ≡ (concat xs, rounds xs s)
unfolding deliver forwarded_to rounds is_writer
deliver_lem viewer [] s h = refl
deliver_lem viewer (x ∷ xs) s h =
    let s' = pump_round x false s in
    let own : (viewer == viewer) ≡ true = ground arith in
    let it : is_writer viewer s.writer ≡ true = ap (is_writer viewer) h ∙ own in
    ap (λ (r : Bytes × Relay). (forwarded_to viewer x s ++ r.0, r.1))
      (deliver_lem viewer xs s' (round-writer x s ∙ h))
    ∙ ap (λ (b : Bool). ((if b then x else []) ++ concat xs, rounds xs s')) it

pub connect-warm :
    (a : Attempt) (s : Relay)
    → s.pump ≡ alive
    → connect a s
      ≡ (some (snapshot_buffer s.buffer), cancel_close (count_warm_client (count_client s)))
unfolding connect is_pump_alive count_client count_warm_client
connect-warm a s h =
    let counted = count_client s in
    ap
      (λ (p : Pump).
        if elim p [ alive ↦ true | _ ↦ false ]
        then (some (snapshot_buffer s.buffer), cancel_close (count_warm_client counted))
        else elim (spin_up a counted) [
          | none ↦ (none, teardown (count_failure counted))
          | some s' ↦ (some [], cancel_close s')
        ])
      h

-- What should come of a viewer: it is sent a burst and the live plaintext, it is the writer, no timer
-- runs, and the buffer is like one that keeps everything.
pub record IsView (viewer : ℕ) (sent all : Bytes) (r : Bytes × Relay) : Type 0 where
  pub received : r.0 ≡ sent
  pub writer : r.1.writer ≡ some viewer
  pub close_at : r.1.close_at ≡ none
  pub next_burst : snapshot_buffer r.1.buffer ≡ snapshot_buffer all

round-close_at : (x : Bytes) (s : Relay) → (pump_round x false s).close_at ≡ s.close_at
unfolding pump_round
round-close_at [] s = refl
round-close_at (x ∷ plain) s = refl

pub rounds-close_at : (xs : List Bytes) (s : Relay) → (rounds xs s).close_at ≡ s.close_at
unfolding rounds
rounds-close_at [] s = refl
rounds-close_at (x ∷ xs) s = rounds-close_at xs (pump_round x false s) ∙ round-close_at x s

pub rounds-writer : (xs : List Bytes) (s : Relay) → (rounds xs s).writer ≡ s.writer
unfolding rounds
rounds-writer [] s = refl
rounds-writer (x ∷ xs) s = rounds-writer xs (pump_round x false s) ∙ round-writer x s

-- what comes in the wait, which is made only where the burst is empty
abbrev pub waited : Bytes → List Bytes → List Bytes
waited [] waiting = waiting
waited (x ∷ burst) waiting = []

-- once the burst is known
shown-IsView :
    (viewer : ℕ) (between live : List Bytes) (burst all : Bytes) (s : Relay)
    → Alike s.buffer all
    → s.close_at ≡ none
    → burst ≡ snapshot_buffer s.buffer
    → let r = deliver viewer live (publish viewer (rounds between s)) in
      IsView viewer
        (snapshot_buffer all ++ concat live)
        ((all ++ concat between) ++ concat live)
        (burst ++ r.0, r.1)
unfolding publish
shown-IsView viewer between live burst all s h c e =
    let s' = publish viewer (rounds between s) in
    let d = deliver_lem viewer live s' refl in
    subst
      (λ (r : Bytes × Relay).
        IsView viewer (snapshot_buffer all ++ concat live) ((all ++ concat between) ++ concat live)
          (burst ++ r.0, r.1))
      (sym d)
      (record {
        received = ap (λ x. x ++ concat live) (e ∙ Alike-snapshot s.buffer all h);
        writer = rounds-writer live s';
        close_at = rounds-close_at live s' ∙ (rounds-close_at between s ∙ c);
        next_burst =
            Alike-snapshot _ _
              (rounds-buffer live s' (all ++ concat between) (rounds-buffer between s all h));
      })

view-IsView :
    (viewer : ℕ) (waiting between live : List Bytes) (burst all : Bytes) (s : Relay)
    → Alike s.buffer all
    → s.close_at ≡ none
    → burst ≡ snapshot_buffer s.buffer
    → let so_far = all ++ concat (waited burst waiting) in
      IsView viewer
        (snapshot_buffer so_far ++ concat live)
        ((so_far ++ concat between) ++ concat live)
        (view viewer waiting between live burst s)
unfolding view wait_if_empty burst_after_wait
view-IsView viewer waiting between live [] all s h c e =
    let s' = rounds waiting s in
    shown-IsView viewer between live (snapshot_buffer s'.buffer) (all ++ concat waiting) s'
      (rounds-buffer waiting s all h) (rounds-close_at waiting s ∙ c) refl
view-IsView viewer waiting between live (x ∷ burst) all s h c e =
    rw append-nil (shown-IsView viewer between live (x ∷ burst) all s h c e)

-- A LAN session that has begun, and whatever plaintext comes before a viewer connects, while it waits for
-- a keyframe, which it does only where there is nothing to show yet, while its burst is written, and
-- afterwards. The viewer is sent the burst that a buffer would give that was never trimmed, and then
-- exactly the live plaintext; what comes while the burst is written is left out. It is the writer, no
-- timer runs, and the next viewer is shown what the never trimmed buffer would show it.
pub watch-IsView :
    (a : Attempt) (viewer : ℕ) (before waiting between live : List Bytes) (s : Relay)
    → s.pump ≡ alive
    → s.buffer ≡ []
    → let so_far = concat before ++ concat (waited (snapshot_buffer (concat before)) waiting) in
      IsView viewer
        (snapshot_buffer so_far ++ concat live)
        ((so_far ++ concat between) ++ concat live)
        (watch a viewer waiting between live (rounds before s))
unfolding watch cancel_close count_client count_warm_client
watch-IsView a viewer before waiting between live s h e =
    let s' = rounds before s in
    let warm = connect-warm a s' (rounds-alive before s ∙ h) in
    let like = rounds-buffer before s [] (λ more. ap (λ x. snapshot_buffer (x ++ more)) e) in
    let shown = snapshot_buffer s'.buffer in
    subst
      (λ (r : Option Bytes × Relay).
        let so_far = concat before ++ concat (waited (snapshot_buffer (concat before)) waiting) in
        IsView viewer (snapshot_buffer so_far ++ concat live)
          ((so_far ++ concat between) ++ concat live)
          (elim r.0 [ none ↦ ([], r.1) | some b ↦ view viewer waiting between live b r.1 ]))
      (sym warm)
      (subst
        (λ (x : Bytes).
          let so_far = concat before ++ concat (waited x waiting) in
          IsView viewer (snapshot_buffer so_far ++ concat live)
            ((so_far ++ concat between) ++ concat live)
            (view viewer waiting between live shown
              (cancel_close (count_warm_client (count_client s')))))
        (Alike-snapshot s'.buffer (concat before) like)
        (view-IsView viewer waiting between live shown (concat before) _ like refl refl))
