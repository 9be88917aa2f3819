-- ===== src/Cpd7/Decoder/Camera/Absorb.antt =====
-- `_absorb_plain` of decoder.py on the plaintext of a packet, before and after the first keyframe.
use ezviz_hp.Base.{
  ℕ, ◌-◌, ◌/◌, if◌then◌else◌, ◌≤◌, true, false, none, some, [], ◌∷◌, ◌++◌, ltb, ◌≡◌, refl, sym, ap,
  ◌∙◌, arith, length, drop, append-nil,
}
use mathlib.Core.Path.{subst}
use ezviz_hp.Base.Bytes.{Bytes}
use ezviz_hp.Cpd7.Decoder.{
  StreamDecoder, log_first, absorb_if_any, absorb_plain, absorb_pending, find_keyframe,
  start_of_output, max_pre_keyframe_buf,
}

module _ {Priv : Type 0} where
  absorb_waiting :
      (d : StreamDecoder Priv) (plain : Bytes)
      → d.mpeg_started ≡ false
      → find_keyframe (d.pending ++ plain) ≡ none
      → length (d.pending ++ plain) ≤ max_pre_keyframe_buf
      → absorb_plain d plain ≡ record d { pending = d.pending ++ plain }
  unfolding absorb_plain absorb_pending
  absorb_waiting d plain m f l =
      let buf = d.pending ++ plain in
      let short : ltb max_pre_keyframe_buf (length buf) ≡ false = ground (arith, l) in
      ap
        (λ b.
          if b then record d { out = d.out ++ plain } else absorb_pending d buf (find_keyframe buf))
        m
      ∙ ap (absorb_pending d buf) f
      ∙ ap
          (λ b.
            if b
            then record d { pending = drop (length buf - max_pre_keyframe_buf / 2) buf }
            else record d { pending = buf })
          short

  absorb_found :
      (d : StreamDecoder Priv) (plain : Bytes) (i : ℕ)
      → d.mpeg_started ≡ false
      → d.out ≡ []
      → find_keyframe (d.pending ++ plain) ≡ some i
      → let buf = d.pending ++ plain in
        absorb_plain d plain
        ≡ record d { mpeg_started = true; out = drop (start_of_output buf i) buf; pending = [] }
  unfolding absorb_plain absorb_pending
  absorb_found d plain i m o f =
      let buf = d.pending ++ plain in
      ap
        (λ b.
          if b then record d { out = d.out ++ plain } else absorb_pending d buf (find_keyframe buf))
        m
      ∙ ap (absorb_pending d buf) f
      ∙ ap
          (λ (x : Bytes). record d {
            mpeg_started = true;
            out = x ++ drop (start_of_output buf i) buf;
            pending = [];
          })
          o

  absorb_running :
      (d : StreamDecoder Priv) (plain : Bytes)
      → d.mpeg_started ≡ true
      → absorb_plain d plain ≡ record d { out = d.out ++ plain }
  unfolding absorb_plain
  absorb_running d plain m = simp m

-- The decoder has the key, and holds a plaintext that no keyframe has ended.
pub record Waits {Priv : Type 0} (key held : Bytes) (d : StreamDecoder Priv) : Type 0 where
  pub consumed : d.first_chunk_consumed ≡ true
  pub keyed : d.chacha20_key ≡ some key
  pub waiting : d.mpeg_started ≡ false
  pub pending : d.pending ≡ held
  pub silent : d.out ≡ []

-- The decoder has the key, and what it decrypts comes out.
pub record Runs {Priv : Type 0} (key out : Bytes) (d : StreamDecoder Priv) : Type 0 where
  pub consumed : d.first_chunk_consumed ≡ true
  pub keyed : d.chacha20_key ≡ some key
  pub running : d.mpeg_started ≡ true
  pub result : d.out ≡ out

module _ {Priv : Type 0} (key : Bytes) (d : StreamDecoder Priv) where
  pub Waits-absorb :
      (held plain : Bytes)
      → Waits key held d
      → find_keyframe (held ++ plain) ≡ none
      → length (held ++ plain) ≤ max_pre_keyframe_buf
      → let r = log_first d plain in Waits key (held ++ plain) (absorb_if_any r.1 r.0)
  unfolding log_first absorb_if_any
  Waits-absorb held [] w f l = rw append-nil w
  Waits-absorb held (a ∷ plain) w f l =
      subst (Waits key (held ++ a ∷ plain))
        (sym (
          absorb_waiting (record d { first_decrypt_logged = true }) (a ∷ plain) w.waiting
            (ap (λ q. find_keyframe (q ++ a ∷ plain)) w.pending ∙ f)
            (subst (λ q. length (q ++ a ∷ plain) ≤ max_pre_keyframe_buf) (sym w.pending) l)))
        (record {
          consumed = w.consumed;
          keyed = w.keyed;
          waiting = w.waiting;
          pending = ap (λ q. q ++ a ∷ plain) w.pending;
          silent = w.silent;
        })

  pub Waits-starts :
      (held plain : Bytes) (i : ℕ)
      → Waits key held d
      → find_keyframe held ≡ none
      → find_keyframe (held ++ plain) ≡ some i
      → let buf = held ++ plain in
        let r = log_first d plain in
        Runs key (drop (start_of_output buf i) buf) (absorb_if_any r.1 r.0)
  unfolding log_first absorb_if_any
  Waits-starts held [] i w n f = absurd (cc (n, f, append-nil held))
  Waits-starts held (a ∷ plain) i w n f =
      subst (Runs key (drop (start_of_output (held ++ a ∷ plain) i) (held ++ a ∷ plain)))
        (sym (
          absorb_found (record d { first_decrypt_logged = true }) (a ∷ plain) i w.waiting w.silent
            (ap (λ q. find_keyframe (q ++ a ∷ plain)) w.pending ∙ f)))
        (record {
          consumed = w.consumed;
          keyed = w.keyed;
          running = refl;
          result = ap (λ q. drop (start_of_output (q ++ a ∷ plain) i) (q ++ a ∷ plain)) w.pending;
        })

  pub Runs-absorb :
      (out plain : Bytes)
      → Runs key out d
      → let r = log_first d plain in Runs key (out ++ plain) (absorb_if_any r.1 r.0)
  unfolding log_first absorb_if_any
  Runs-absorb out [] w = rw append-nil w
  Runs-absorb out (a ∷ plain) w =
      subst (Runs key (out ++ a ∷ plain))
        (sym (absorb_running (record d { first_decrypt_logged = true }) (a ∷ plain) w.running))
        (record {
          consumed = w.consumed;
          keyed = w.keyed;
          running = w.running;
          result = ap (λ q. q ++ a ∷ plain) w.result;
        })
