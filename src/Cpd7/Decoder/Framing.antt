-- ===== src/Cpd7/Decoder/Framing.antt =====
-- How the decoder of decoder.py cuts its input: the rounds of `feed`, and its independence of the
-- segments in which the bytes arrive and of when the output is taken.
use ezviz_hp.Base.{
  ℕ, zero, suc, ◌+◌, ◌<◌, Option, none, some, [], ◌∷◌, ◌++◌, ◌≡◌, refl, sym, ap, ◌∙◌, inl, inr,
  arith, append_assoc, append-nil, get_or-append, slice-append, length, get_or, drop, slice,
  length-append, length-drop, drop-append, Option-cases,
}
use ezviz_hp.Base.Bytes.{Bytes, be16_at}
use ezviz_hp.Cpd7.Ciphers.{Ciphers}
use ezviz_hp.Cpd7.Decoder.{
  StreamDecoder, absorb_plain, decrypt_data_chunk, absorb_if_any, take_data, handle_chunk,
  consume_one_chunk, drain, settle, find_keyframe, absorb_pending, start_of_output,
}

-- The decoder with more bytes behind its buffer and more output in front of its own.
abbrev pub around : {Priv : Type 0} → Bytes → Bytes → StreamDecoder Priv → StreamDecoder Priv
around o b d = record d { buf = d.buf ++ b; out = o ++ d.out }

abbrev pub prepend : {Priv : Type 0} → Bytes → StreamDecoder Priv → StreamDecoder Priv
prepend o d = record d { out = o ++ d.out }

around_nil : {Priv : Type 0} (o : Bytes) (d : StreamDecoder Priv) → around o [] d ≡ prepend o d
around_nil o d = ap (λ b. record d { buf = b; out = o ++ d.out }) (append-nil d.buf)

absorb_pending-around :
    {Priv : Type 0} (d : StreamDecoder Priv) (o b buf : Bytes) (kf : Option ℕ)
    → absorb_pending (around o b d) buf kf ≡ around o b (absorb_pending d buf kf)
unfolding absorb_pending
absorb_pending-around d o b buf none = ground arith
absorb_pending-around d o b buf (some k) =
    ground (arith, append_assoc o d.out (drop (start_of_output buf k) buf))

absorb_plain-around :
    {Priv : Type 0} (d : StreamDecoder Priv) (o b plain : Bytes)
    → absorb_plain (around o b d) plain ≡ around o b (absorb_plain d plain)
unfolding absorb_plain
absorb_plain-around d o b plain = ground (
  arith,
  append_assoc o d.out plain,
  absorb_pending-around d o b (d.pending ++ plain) (find_keyframe (d.pending ++ plain)),
)

absorb_if_any-around :
    {Priv : Type 0} (d : StreamDecoder Priv) (o b plain : Bytes)
    → absorb_if_any (around o b d) plain ≡ around o b (absorb_if_any d plain)
unfolding absorb_if_any
absorb_if_any-around d o b [] = refl
absorb_if_any-around d o b (x ∷ plain) = absorb_plain-around d o b (x ∷ plain)

module _ {Priv Pub : Type 0} (c : Ciphers Priv Pub) where
  decrypt_data_chunk-around :
      (d : StreamDecoder Priv) (o b chunk : Bytes)
      → decrypt_data_chunk c (around o b d) chunk
        ≡ ((decrypt_data_chunk c d chunk).0, around o b (decrypt_data_chunk c d chunk).1)
  unfolding decrypt_data_chunk
  decrypt_data_chunk-around d o b chunk = ground arith

  take_data-around :
      (d : StreamDecoder Priv) (o b payload : Bytes)
      → take_data c (around o b d) payload ≡ around o b (take_data c d payload)
  unfolding take_data
  take_data-around d o b payload =
      rw decrypt_data_chunk-around (absorb_if_any-around (decrypt_data_chunk c d payload).1 o b _)

  pub handle_chunk-around :
      (d : StreamDecoder Priv) (o b : Bytes) (chan : ℕ) (payload : Bytes)
      → handle_chunk c (around o b d) chan payload ≡ around o b (handle_chunk c d chan payload)
  unfolding handle_chunk
  handle_chunk-around d o b chan payload = ground (arith, take_data-around d o b payload)

  take_data-buf : (d : StreamDecoder Priv) (payload : Bytes) → (take_data c d payload).buf ≡ d.buf
  unfolding take_data decrypt_data_chunk absorb_plain
  take_data-buf d payload = ground arith

  -- The handlers leave the buffer alone.
  pub handle_chunk-buf :
      (d : StreamDecoder Priv) (chan : ℕ) (payload : Bytes)
      → (handle_chunk c d chan payload).buf ≡ d.buf
  unfolding handle_chunk
  handle_chunk-buf d chan payload = ground (arith, take_data-buf d payload)

  -- A round shortens the buffer.
  pub consume_one_chunk-lt :
      (d d' : StreamDecoder Priv) → consume_one_chunk c d ≡ some d' → length d'.buf < length d.buf
  unfolding consume_one_chunk
  consume_one_chunk-lt d d' h =
      let total = 4 + be16_at 2 d.buf in
      ground (
        arith,
        length-drop 1 d.buf,
        length-drop total d.buf,
        handle_chunk-buf (record d { buf = drop total d.buf }) (get_or d.buf 1 0)
            (slice 4 total d.buf),
      )

  -- A round that consumes does the same with more bytes behind the buffer.
  consume_one_chunk-around :
      (d d' : StreamDecoder Priv) (o b : Bytes)
      → consume_one_chunk c d ≡ some d'
      → consume_one_chunk c (around o b d) ≡ some (around o b d')
  unfolding consume_one_chunk
  consume_one_chunk-around d d' o b h =
      let total = 4 + be16_at 2 d.buf in
      ground (
        arith,
        length-append d.buf b,
        get_or-append d.buf b 0 0,
        get_or-append d.buf b 1 0,
        get_or-append d.buf b 2 0,
        get_or-append d.buf b 3 0,
        drop-append 1 d.buf b,
        drop-append total d.buf b,
        slice-append 4 total d.buf b,
        handle_chunk-around (record d { buf = drop total d.buf }) o b (get_or d.buf 1 0)
            (slice 4 total d.buf),
      )

  -- Where the buffer is at rest, more output changes nothing.
  consume_one_chunk-prepend :
      (d : StreamDecoder Priv) (o : Bytes)
      → consume_one_chunk c d ≡ none
      → consume_one_chunk c (prepend o d) ≡ none
  unfolding consume_one_chunk
  consume_one_chunk-prepend d o h = ground arith

  pub drain-next :
      (f : ℕ) (d d' : StreamDecoder Priv)
      → consume_one_chunk c d ≡ some d'
      → drain c (suc f) d ≡ drain c f d'
  unfolding drain
  drain-next f d d' e = rw (e, drain)

  pub drain-rest : (f : ℕ) (d : StreamDecoder Priv) → consume_one_chunk c d ≡ none → drain c f d ≡ d
  unfolding drain
  drain-rest zero d e = refl
  drain-rest (suc f) d e = rw (e, drain)

  drain-fuel :
      (f g : ℕ) (d : StreamDecoder Priv)
      → length d.buf < f
      → length d.buf < g
      → drain c f d ≡ drain c g d
  drain-fuel zero g d p q = absurd (omega arith)
  drain-fuel (suc f) zero d p q = absurd (omega arith)
  drain-fuel (suc f) (suc g) d p q = elim (Option-cases (consume_one_chunk c d)) [
    | inl e ↦ drain-rest (suc f) d e ∙ sym (drain-rest (suc g) d e)
    | inr (d', e) ↦
        let lt = consume_one_chunk-lt d d' e in
        drain-next f d d' e
        ∙ drain-fuel f g d' (omega arith) (omega arith)
        ∙ sym (drain-next g d d' e)
  ]

  drain-ends :
      (f : ℕ) (d : StreamDecoder Priv) → length d.buf < f → consume_one_chunk c (drain c f d) ≡ none
  drain-ends zero d p = absurd (omega arith)
  drain-ends (suc f) d p = elim (Option-cases (consume_one_chunk c d)) [
    | inl e ↦ rw (drain-rest (suc f) d e) e
    | inr (d', e) ↦
        rw (drain-next f d d' e) (drain-ends f d' (omega (arith, consume_one_chunk-lt d d' e)))
  ]

  -- The loop of `feed` ends because no chunk is left to consume: its fuel is enough.
  settle_ends : (d : StreamDecoder Priv) → consume_one_chunk c (settle c d) ≡ none
  unfolding settle
  settle_ends d = drain-ends (suc (length d.buf)) d (omega arith)

  pub settle-step :
      (d d' : StreamDecoder Priv) → consume_one_chunk c d ≡ some d' → settle c d ≡ settle c d'
  unfolding settle
  settle-step d d' e =
      drain-next (length d.buf) d d' e
      ∙ drain-fuel (length d.buf) (suc (length d'.buf)) d' (consume_one_chunk-lt d d' e)
          (omega arith)

  pub settle-rest : (d : StreamDecoder Priv) → consume_one_chunk c d ≡ none → settle c d ≡ d
  unfolding settle
  settle-rest d e = drain-rest (suc (length d.buf)) d e

  -- Rounds made before more bytes come are rounds of the whole input.
  settle-drain :
      (f : ℕ) (d : StreamDecoder Priv) (o b : Bytes)
      → settle c (around o b (drain c f d)) ≡ settle c (around o b d)
  settle-drain zero d o b = unfold drain in refl
  settle-drain (suc f) d o b = elim (Option-cases (consume_one_chunk c d)) [
    | inl e ↦ rw (drain-rest (suc f) d e)
    | inr (d', e) ↦ rw (drain-next f d d' e) (
        settle-drain f d' o b
        ∙ sym (settle-step (around o b d) (around o b d') (consume_one_chunk-around d d' o b e)))
  ]

  pub settle-settle :
      (d : StreamDecoder Priv) (o b : Bytes)
      → settle c (around o b (settle c d)) ≡ settle c (around o b d)
  unfolding settle
  settle-settle d o b = settle-drain (suc (length d.buf)) d o b

  consume_one_chunk-prepend-some :
      (d d' : StreamDecoder Priv) (o : Bytes)
      → consume_one_chunk c d ≡ some d'
      → consume_one_chunk c (prepend o d) ≡ some (prepend o d')
  consume_one_chunk-prepend-some d d' o e =
      ap (consume_one_chunk c) (sym (around_nil o d))
      ∙ consume_one_chunk-around d d' o [] e
      ∙ ap some (around_nil o d')

  drain-prepend :
      (f : ℕ) (d : StreamDecoder Priv) (o : Bytes)
      → drain c f (prepend o d) ≡ prepend o (drain c f d)
  drain-prepend zero d o = unfold drain in refl
  drain-prepend (suc f) d o = elim (Option-cases (consume_one_chunk c d)) [
    | inl e ↦
        drain-rest (suc f) (prepend o d) (consume_one_chunk-prepend d o e)
        ∙ ap (prepend o) (sym (drain-rest (suc f) d e))
    | inr (d', e) ↦
        drain-next f (prepend o d) (prepend o d') (consume_one_chunk-prepend-some d d' o e)
        ∙ drain-prepend f d' o
        ∙ ap (prepend o) (sym (drain-next f d d' e))
  ]

  -- Output that is there already stays in front.
  pub settle-prepend :
      (d : StreamDecoder Priv) (o : Bytes) → settle c (prepend o d) ≡ prepend o (settle c d)
  unfolding settle
  settle-prepend d o = drain-prepend (suc (length d.buf)) d o
