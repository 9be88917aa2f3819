-- ===== src/Entities/Mjpeg/Loop.antt =====
-- The loop of mjpeg.py that hands what ffmpeg writes to the client.
use ezviz_hp.Base.{
  ℕ, suc, ◌+◌, ◌≤◌, Bool, true, false, Option, none, some, List, [], ◌∷◌, ◌++◌, length,
  length-append, if◌then◌else◌, ◌≡◌, refl, ◌∙◌, arith, append_assoc,
}
use ezviz_hp.Base.Bytes.{Bytes}
use ezviz_hp.Entities.Mjpeg.{
  End, ffmpeg_eof, client_disconnected, cancelled, error, written, reset, write_cancelled,
  write_failed, Round, chunk, read_cancelled, read_failed, Session, stop, forward,
}

-- what ffmpeg writes in some rounds
abbrev pub output : List Round → Bytes
output [] = []
output (chunk xs w ∷ rs) = xs ++ output rs
output (read_cancelled ∷ rs) = output rs
output (read_failed ∷ rs) = output rs

-- What the loop reads of it: every chunk up to the round in which it ends, also where it cannot be
-- written any more.
abbrev pub consumed : List Round → Bytes
consumed [] = []
consumed (chunk [] w ∷ rs) = []
consumed (chunk (x ∷ xs) written ∷ rs) = x ∷ xs ++ consumed rs
consumed (chunk (x ∷ xs) reset ∷ rs) = x ∷ xs
consumed (chunk (x ∷ xs) write_cancelled ∷ rs) = x ∷ xs
consumed (chunk (x ∷ xs) write_failed ∷ rs) = x ∷ xs
consumed (read_cancelled ∷ rs) = []
consumed (read_failed ∷ rs) = []

-- whether an end was an unexpected exception
abbrev pub is_error : Option End → Bool
is_error none = false
is_error (some error) = true
is_error (some _) = false

-- The client got a beginning of the output `out` beyond what it had; exactly the bytes `taken` are counted,
-- and no less than the client got; an error is counted exactly where the session ends by one.
pub record Forwarded (taken out : Bytes) (s r : Session) : Type 0 where
  pub rest : Bytes
  pub prefix : r.sent ++ rest ≡ s.sent ++ out
  pub counted : r.total_bytes ≡ s.total_bytes + length taken
  pub enough : length r.sent + s.total_bytes ≤ length s.sent + r.total_bytes
  pub errors :
      r.errors_mjpeg ≡ (if is_error r.end_reason then suc s.errors_mjpeg else s.errors_mjpeg)

stop-Forwarded :
    (e : End) (m : ℕ) (taken out : Bytes) (s : Session)
    → m ≡ s.total_bytes + length taken
    → Forwarded taken out s (stop e (record s { total_bytes = m }))
unfolding stop
stop-Forwarded ffmpeg_eof m taken out s h = record {
  rest = out;
  prefix = refl;
  counted = h;
  enough = omega (arith, h);
  errors = refl;
}
stop-Forwarded client_disconnected m taken out s h = record {
  rest = out;
  prefix = refl;
  counted = h;
  enough = omega (arith, h);
  errors = refl;
}
stop-Forwarded cancelled m taken out s h = record {
  rest = out;
  prefix = refl;
  counted = h;
  enough = omega (arith, h);
  errors = refl;
}
stop-Forwarded error m taken out s h = record {
  rest = out;
  prefix = refl;
  counted = h;
  enough = omega (arith, h);
  errors = refl;
}

stop_here : (e : End) (out : Bytes) (s : Session) → Forwarded [] out s (stop e s)
stop_here e out s = stop-Forwarded e s.total_bytes [] out s (omega arith)

stop_late :
    (e : End) (xs out : Bytes) (s : Session)
    → Forwarded xs out s (stop e (record s { total_bytes = s.total_bytes + length xs }))
stop_late e xs out s = stop-Forwarded e (s.total_bytes + length xs) xs out s refl

pub forward-Forwarded :
    (rs : List Round) (s : Session)
    → s.end_reason ≡ none
    → Forwarded (consumed rs) (output rs) s (forward rs s)
unfolding forward
forward-Forwarded [] s h = record {
  rest = [];
  prefix = refl;
  counted = omega arith;
  enough = omega arith;
  errors = rw h refl;
}
forward-Forwarded (read_cancelled ∷ rs) s h = stop_here cancelled (output rs) s
forward-Forwarded (read_failed ∷ rs) s h = stop_here error (output rs) s
forward-Forwarded (chunk [] w ∷ rs) s h = stop_here ffmpeg_eof (output rs) s
forward-Forwarded (chunk (x ∷ xs) written ∷ rs) s h =
    let s' = record s {
      total_bytes = s.total_bytes + length (x ∷ xs);
      sent = s.sent ++ (x ∷ xs);
    } in
    let f = forward-Forwarded rs s' h in
    record {
      rest = f.rest;
      prefix = f.prefix ∙ append_assoc s.sent (x ∷ xs) (output rs);
      counted = omega (arith, f.counted, length-append (x ∷ xs) (consumed rs));
      enough = omega (arith, f.enough, length-append s.sent (x ∷ xs));
      errors = f.errors;
    }
forward-Forwarded (chunk (x ∷ xs) reset ∷ rs) s h =
    stop_late client_disconnected (x ∷ xs) (x ∷ xs ++ output rs) s
forward-Forwarded (chunk (x ∷ xs) write_cancelled ∷ rs) s h =
    stop_late cancelled (x ∷ xs) (x ∷ xs ++ output rs) s
forward-Forwarded (chunk (x ∷ xs) write_failed ∷ rs) s h =
    stop_late error (x ∷ xs) (x ∷ xs ++ output rs) s

-- What the loop leaves alone.
abbrev pub Kept : Session → Session → Type 0
Kept s r = (r.mjpeg_sessions ≡ s.mjpeg_sessions) × (r.process ≡ s.process)

stop-Kept : (e : End) (m : ℕ) (s : Session) → Kept s (stop e (record s { total_bytes = m }))
unfolding stop
stop-Kept ffmpeg_eof m s = (refl, refl)
stop-Kept client_disconnected m s = (refl, refl)
stop-Kept cancelled m s = (refl, refl)
stop-Kept error m s = (refl, refl)

pub forward-Kept : (rs : List Round) (s : Session) → Kept s (forward rs s)
unfolding forward
forward-Kept [] s = (refl, refl)
forward-Kept (read_cancelled ∷ rs) s = stop-Kept cancelled s.total_bytes s
forward-Kept (read_failed ∷ rs) s = stop-Kept error s.total_bytes s
forward-Kept (chunk [] w ∷ rs) s = stop-Kept ffmpeg_eof s.total_bytes s
forward-Kept (chunk (x ∷ xs) written ∷ rs) s = forward-Kept rs _
forward-Kept (chunk (x ∷ xs) reset ∷ rs) s =
    stop-Kept client_disconnected (s.total_bytes + length (x ∷ xs)) s
forward-Kept (chunk (x ∷ xs) write_cancelled ∷ rs) s =
    stop-Kept cancelled (s.total_bytes + length (x ∷ xs)) s
forward-Kept (chunk (x ∷ xs) write_failed ∷ rs) s =
    stop-Kept error (s.total_bytes + length (x ∷ xs)) s
