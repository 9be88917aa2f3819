-- ===== src/Entities/Mjpeg/Forward.antt =====
-- What a client of mjpeg.py gets, and what a session leaves.
use ezviz_hp.Base.{
  suc, Bool, true, false, Option, none, some, if◌then◌else◌, ◌≡◌, refl, ap, ◌∙◌, sym, ◌⊎◌, inl, inr,
  Bool-cases,
}
use ezviz_hp.Entities.Mjpeg.Terminate.{outlives, terminate_lem}
use ezviz_hp.Entities.Mjpeg.Loop.{
  output, consumed, is_error, Forwarded, forward-Forwarded, forward-Kept,
}
use ezviz_hp.Entities.Mjpeg.{
  End, ffmpeg_eof, client_disconnected, cancelled, error, Session, forward, World, running, ended,
  terminate, is_raised, is_cut, clean_up, serve_mjpeg,
}

-- whether the request is cancelled while `_terminate` waits
abbrev pub is_interrupted : World → Bool
is_interrupted w = is_cut w.cut (terminate w.exited w.term w.kill).waited

-- What a session should leave: the client got a beginning of what ffmpeg wrote; once it has ended, and
-- no cancellation cuts `_terminate` short, its stderr is not read any more, and ffmpeg has ended too,
-- unless it outlives both signals; where one does, ffmpeg is left running and the call raises; and no
-- unexpected exception is swallowed.
pub record IsServed (w : World) (s : Session) (r : Bool × Session) : Type 0 where
  pub forwarded : Forwarded (consumed w.rounds) (output w.rounds) s r.1
  pub sessions : r.1.mjpeg_sessions ≡ suc s.mjpeg_sessions
  pub drained : (e : End) → r.1.end_reason ≡ some e → is_interrupted w ≡ false → r.1.drains ≡ false
  pub killed :
      (e : End)
      → r.1.end_reason ≡ some e
      → is_interrupted w ≡ false
      → (r.1.process ≡ ended)
        ⊎ ((w.exited ≡ false) × (outlives w.term ≡ true) × (outlives w.kill ≡ true))
  pub interrupted :
      (e : End)
      → r.1.end_reason ≡ some e
      → is_interrupted w ≡ true
      → (r.0 ≡ true) × (r.1.process ≡ running)
  pub told : is_error r.1.end_reason ≡ true → r.0 ≡ true

end_of :
    (exited term kill runs : Bool)
    → runs ≡ (if exited then false else if term then kill else false)
    → ((if runs then running else ended) ≡ ended)
      ⊎ ((exited ≡ false) × (term ≡ true) × (kill ≡ true))
end_of true term kill runs h = inl (rw h refl)
end_of false true true runs h = inr (refl, refl, refl)
end_of false true false runs h = inl (rw h refl)
end_of false false kill runs h = inl (rw h refl)

process_after :
    (w : World)
    → ((if (terminate w.exited w.term w.kill).runs then running else ended) ≡ ended)
      ⊎ ((w.exited ≡ false) × (outlives w.term ≡ true) × (outlives w.kill ≡ true))
process_after w =
    end_of w.exited (outlives w.term) (outlives w.kill) (terminate w.exited w.term w.kill).runs
      (terminate_lem w.exited w.term w.kill).2

told_of : (b : Bool) (e : End) → is_error (some e) ≡ true → (if b then true else is_raised e) ≡ true
unfolding is_raised
told_of true e h = refl
told_of false ffmpeg_eof h = h
told_of false client_disconnected h = h
told_of false cancelled h = refl
told_of false error h = refl

clean_up-IsServed :
    (w : World) (s s' : Session) (o : Option End)
    → s'.end_reason ≡ o
    → Forwarded (consumed w.rounds) (output w.rounds) s s'
    → s'.mjpeg_sessions ≡ suc s.mjpeg_sessions
    → s'.process ≡ running
    → IsServed w s (clean_up w o s')
unfolding clean_up
clean_up-IsServed w s s' none h f n p = record {
  forwarded = f;
  sessions = n;
  drained = λ e k. absurd (cc);
  killed = λ e k. absurd (cc);
  interrupted = λ e k. absurd (cc);
  told = λ k. let k' : is_error none ≡ true = ap is_error (sym h) ∙ k in absurd (cc);
}
clean_up-IsServed w s s' (some e) h f n p = elim (Bool-cases (is_interrupted w)) [
  | inl cut ↦ rw cut (record {
    forwarded = f;
    sessions = n;
    drained = λ e' k whole. absurd (cc);
    killed = λ e' k whole. absurd (cc);
    interrupted = λ e' k c. (refl, p);
    told = λ k. refl;
  })
  | inr whole ↦ rw whole (record {
    forwarded = record {
      rest = f.rest;
      prefix = f.prefix;
      counted = f.counted;
      enough = f.enough;
      errors = f.errors;
    };
    sessions = n;
    drained = λ e' k c. refl;
    killed = λ e' k c. process_after w;
    interrupted = λ e' k cut. absurd (cc);
    told = λ k. told_of w.eof_fails e (ap is_error (sym h) ∙ k);
  })
]

-- A session whose ffmpeg was spawned and whose response could be prepared, whatever happens then:
-- the client got a beginning of what ffmpeg wrote; exactly the bytes that were read are counted,
-- those of a chunk that could not be written too; an unexpected exception is counted, and it is
-- raised. Once the session has ended, and no cancellation comes while `_terminate` waits, its
-- stderr is not read any more, and ffmpeg has ended, unless it outlives both signals; where one
-- comes, the call raises and leaves ffmpeg running.
pub serve-IsServed :
    (w : World) (s : Session)
    → w.spawns ≡ true
    → w.prepares ≡ true
    → s.end_reason ≡ none
    → IsServed w s (serve_mjpeg w s)
unfolding serve_mjpeg
serve-IsServed w s a b h =
    let s' = record s { mjpeg_sessions = suc s.mjpeg_sessions; process = running; drains = true } in
    let r = forward w.rounds s' in
    let f = forward-Forwarded w.rounds s' h in
    let kept = forward-Kept w.rounds s' in
    simp (a, b)
      (clean_up-IsServed w s r r.end_reason refl
        (record {
          rest = f.rest;
          prefix = f.prefix;
          counted = f.counted;
          enough = f.enough;
          errors = f.errors;
        })
        kept.0 kept.1)
