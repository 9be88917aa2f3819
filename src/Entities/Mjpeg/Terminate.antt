-- ===== src/Entities/Mjpeg/Terminate.antt =====
-- How the ffmpeg process of mjpeg.py ends.
use ezviz_hp.Base.{◌*◌, ◌≤◌, Bool, true, false, [], ◌∷◌, leb, if◌then◌else◌, ◌≡◌, refl, arith}
use ezviz_hp.Entities.Mjpeg.{
  ffmpeg_grace, sigterm, sigkill, Reaction, lookup_error, ends_after, stays, wait_for, terminate,
}

-- The process outlives a signal: it takes longer than the grace.
abbrev pub outlives : Reaction → Bool
outlives lookup_error = false
outlives (ends_after t) = if leb t ffmpeg_grace then false else true
outlives stays = true

-- Whatever the process does, `_terminate` ends: it waits twice the grace at most; it sends nothing to
-- a process that has ended, no SIGKILL to one that ends within the grace of SIGTERM, and both signals
-- to any other; and the process still runs exactly where it outlives both.
pub terminate_lem :
    (exited : Bool) (term kill : Reaction)
    → let e = terminate exited term kill in
      (e.waited ≤ 2 * ffmpeg_grace)
      × (e.signals
          ≡ (if exited then [] else if outlives term then sigterm ∷ sigkill ∷ [] else sigterm ∷ []))
      × (e.runs ≡ (if exited then false else if outlives term then outlives kill else false))
unfolding terminate wait_for
terminate_lem true term kill = (omega arith, refl, refl)
terminate_lem false lookup_error kill = (omega arith, refl, refl)
terminate_lem false (ends_after t) lookup_error = (ground arith, ground arith, ground arith)
terminate_lem false (ends_after t) (ends_after u) = (ground arith, ground arith, ground arith)
terminate_lem false (ends_after t) stays = (ground arith, ground arith, ground arith)
terminate_lem false stays lookup_error = (omega arith, refl, refl)
terminate_lem false stays (ends_after u) = (ground arith, ground arith, ground arith)
terminate_lem false stays stays = (omega arith, refl, refl)
