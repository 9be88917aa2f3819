-- ===== src/Entities/Mjpeg.antt =====
-- custom_components/ezviz_hp7/mjpeg.py: a session of motion JPEG with its ffmpeg process. What the
-- process, the client and the host do is an argument; times are whole seconds.
pub mod Terminate
pub mod Loop
pub mod Forward
use ezviz_hp.Base.{
  ℕ, zero, suc, ◌+◌, Bool, true, false, Option, none, some, List, [], ◌∷◌, ◌++◌, leb, ltb, length,
  if◌then◌else◌,
}
use ezviz_hp.Base.Bytes.{Bytes}
use ezviz_hp.Base.Text.{codes, decimal}

-- `_build_ffmpeg_cmd`
unfoldable pub build_ffmpeg_cmd : Bytes → ℕ → ℕ → ℕ → ℕ → List Bytes
build_ffmpeg_cmd upstream_url fps width height quality =
    codes "ffmpeg"
    ∷ codes "-loglevel"
    ∷ codes "warning"
    ∷ codes "-f"
    ∷ codes "mpeg"
    ∷ codes "-probesize"
    ∷ codes "32"
    ∷ codes "-analyzeduration"
    ∷ codes "0"
    ∷ codes "-fflags"
    ∷ codes "+discardcorrupt+nobuffer"
    ∷ codes "-flags"
    ∷ codes "low_delay"
    ∷ codes "-i"
    ∷ upstream_url
    ∷ codes "-an"
    ∷ codes "-c:v"
    ∷ codes "mjpeg"
    ∷ codes "-q:v"
    ∷ decimal quality
    ∷ codes "-r"
    ∷ decimal fps
    ∷ codes "-vf"
    ∷ (codes "scale=" ++ (decimal width ++ (codes ":" ++ decimal height)))
    ∷ codes "-f"
    ∷ codes "mpjpeg"
    ∷ codes "pipe:1"
    ∷ []

-- `_FFMPEG_GRACE`
abbrev pub ffmpeg_grace : ℕ
ffmpeg_grace = 2

pub data Signal : Type 0 where
  sigterm : Signal
  sigkill : Signal

-- What a signal comes to: there is no process any more, or the process ends after some time, or never.
pub data Reaction : Type 0 where
  lookup_error : Reaction
  ends_after : ℕ → Reaction
  stays : Reaction

-- What `_terminate` has done: the signals sent, the seconds waited, whether the process still runs.
pub record Ending : Type 0 where
  pub signals : List Signal
  pub waited : ℕ
  pub runs : Bool

-- the wait for the end, `ffmpeg_grace` at most, and what follows where that is too short
wait_for : Reaction → Ending → (Ending → Ending) → Ending
wait_for lookup_error e late = record e { runs = false }
wait_for (ends_after t) e late =
    if leb t ffmpeg_grace
    then record e { waited = e.waited + t; runs = false }
    else late (record e { waited = e.waited + ffmpeg_grace })
wait_for stays e late = late (record e { waited = e.waited + ffmpeg_grace })

-- `_terminate`, with what the two signals come to
unfoldable pub terminate : Bool → Reaction → Reaction → Ending
unfolding wait_for
terminate true term kill = record { signals = []; waited = 0; runs = false }
terminate false term kill =
    wait_for term (record { signals = sigterm ∷ []; waited = 0; runs = true })
      (λ e. wait_for kill (record e { signals = sigterm ∷ sigkill ∷ [] }) (λ late. late))

pub data End : Type 0 where
  ffmpeg_eof : End
  client_disconnected : End
  cancelled : End
  error : End

-- the write of a chunk to the client
pub data Write : Type 0 where
  written : Write
  reset : Write
  write_cancelled : Write
  write_failed : Write

-- a round of the loop: a chunk of ffmpeg, empty at the end, with its write; or no chunk
pub data Round : Type 0 where
  chunk : Bytes → Write → Round
  read_cancelled : Round
  read_failed : Round

pub data Process : Type 0 where
  not_spawned : Process
  running : Process
  ended : Process

-- The locals of `serve_mjpeg`, the counters of stats.py that it moves, the bytes that the client got,
-- the process and the task that drains its stderr.
pub record Session : Type 0 where
  pub mjpeg_sessions : ℕ
  pub errors_mjpeg : ℕ
  pub process : Process
  pub drains : Bool
  pub sent : Bytes
  pub total_bytes : ℕ
  pub end_reason : Option End

-- an end of the loop; only an unexpected exception is counted
stop : End → Session → Session
stop error s = record s { end_reason = some error; errors_mjpeg = suc s.errors_mjpeg }
stop e s = record s { end_reason = some e }

-- the end of the loop that a write brings, if any
ends_with : Write → Option End
ends_with written = none
ends_with reset = some client_disconnected
ends_with write_cancelled = some cancelled
ends_with write_failed = some error

-- the loop of `serve_mjpeg`; where the rounds run out it goes on
unfoldable pub forward : List Round → Session → Session
unfolding stop ends_with
forward [] s = s
forward (read_cancelled ∷ rs) s = stop cancelled s
forward (read_failed ∷ rs) s = stop error s
forward (chunk [] w ∷ rs) s = stop ffmpeg_eof s
forward (chunk (x ∷ xs) w ∷ rs) s =
    let counted = record s { total_bytes = s.total_bytes + length (x ∷ xs) } in
    elim (ends_with w) [
      | none ↦ forward rs (record counted { sent = s.sent ++ (x ∷ xs) })
      | some e ↦ stop e counted
    ]

-- What happens in a session: whether ffmpeg can be spawned, whether the response can be prepared, the
-- rounds, whether ffmpeg has ended by itself, what the signals come to, after how many seconds of the
-- waits of `_terminate` the request is cancelled, if it is, and whether `write_eof` raises an exception
-- that is not caught. A cancellation while the task of stderr is awaited is caught.
pub record World : Type 0 where
  pub spawns : Bool
  pub prepares : Bool
  pub rounds : List Round
  pub exited : Bool
  pub term : Reaction
  pub kill : Reaction
  pub cut : Option ℕ
  pub eof_fails : Bool

is_raised : End → Bool
is_raised ffmpeg_eof = false
is_raised client_disconnected = false
is_raised cancelled = true
is_raised error = true

-- whether a cancellation comes while `_terminate` waits, so that the process runs and is not waited for
abbrev pub is_cut : Option ℕ → ℕ → Bool
is_cut none waited = false
is_cut (some t) waited = ltb t waited

-- the `finally`: whether the call raises, and the session; a cancellation in `_terminate` leaves it
clean_up : World → Option End → Session → Bool × Session
unfolding is_raised
clean_up w none s = (false, s)
clean_up w (some e) s =
    let ending = terminate w.exited w.term w.kill in
    if is_cut w.cut ending.waited then (true, s) else (
      if w.eof_fails then true else is_raised e,
      record s { process = if ending.runs then running else ended; drains = false },
    )

-- `serve_mjpeg`: whether it raises, and the session
unfoldable pub serve_mjpeg : World → Session → Bool × Session
unfolding clean_up
serve_mjpeg w s =
    let counted = record s { mjpeg_sessions = suc s.mjpeg_sessions } in
    if w.spawns
    then (let spawned = record counted { process = running } in
        if w.prepares
        then (let s' = forward w.rounds (record spawned { drains = true }) in
            clean_up w s'.end_reason s')
        else (true, spawned))
    else (true, counted)
