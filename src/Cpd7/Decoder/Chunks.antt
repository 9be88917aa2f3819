-- ===== src/Cpd7/Decoder/Chunks.antt =====
-- The framing of decoder.py: a stream of encoded chunks is handled chunk by chunk, stray bytes are
-- skipped, and without a key nothing comes out.
use ezviz_hp.Base.{
  ℕ, zero, suc, ◌+◌, ◌-◌, ◌*◌, ◌/◌, ◌%◌, ◌<◌, ◌≤◌, true, false, none, some, List, [], ◌∷◌, ◌++◌,
  ◌≡◌, ◌≢◌, refl, sym, ap, ◌∙◌, inl, inr, arith, Option-cases, length, get_or, drop, slice,
  length-append, take-append_exact, drop-append_exact,
}
use ezviz_hp.Base.Bytes.{Bytes, All, be16_at}
use ezviz_hp.Cpd7.Ciphers.{Ciphers}
use ezviz_hp.Cpd7.Decoder.{
  StreamDecoder, new_decoder, derive_keys, handle_chunk, consume_one_chunk, drain, settle, feed,
}
use ezviz_hp.Cpd7.Decoder.Framing.{
  drain-next, drain-rest, settle-step, settle-rest, handle_chunk-around, handle_chunk-buf,
}

-- A chunk as the doorbell sends it: `$ <chan:1> <plen:2 BE> <payload:plen>`.
unfoldable pub encode_chunk : ℕ × Bytes → Bytes
encode_chunk (chan, payload) =
    0x24 ∷ chan ∷ (length payload / 256) ∷ (length payload % 256) ∷ payload

abbrev pub encode_chunks : List (ℕ × Bytes) → Bytes
encode_chunks [] = []
encode_chunks (k ∷ ks) = encode_chunk k ++ encode_chunks ks

module _ {Priv Pub : Type 0} (c : Ciphers Priv Pub) where
  -- What the decoder should do with chunks: handle them in order.
  abbrev pub handle_chunks : StreamDecoder Priv → List (ℕ × Bytes) → StreamDecoder Priv
  handle_chunks d [] = d
  handle_chunks d ((chan, payload) ∷ ks) = handle_chunks (handle_chunk c d chan payload) ks

  consume_whole :
      (d : StreamDecoder Priv) (chan hi lo : ℕ) (payload rest : Bytes)
      → 4 + (hi * 256 + lo) ≡ suc (suc (suc (suc (length payload))))
      → consume_one_chunk c (record d { buf = 0x24 ∷ chan ∷ hi ∷ lo ∷ (payload ++ rest) })
        ≡ some (handle_chunk c (record d { buf = rest }) chan payload)
  unfolding consume_one_chunk
  consume_whole d chan hi lo payload rest e =
      let n = length payload in
      let four : suc (suc (suc (suc n))) - 4 ≡ n = omega arith in
      rw e (
        ground (
          arith,
          four,
          length-append payload rest,
          drop-append_exact n payload rest refl,
          take-append_exact n payload rest refl,
        ))

  consume-encoded :
      (d : StreamDecoder Priv) (chan : ℕ) (payload rest : Bytes)
      → consume_one_chunk c (record d { buf = encode_chunk (chan, payload) ++ rest })
        ≡ some (handle_chunk c (record d { buf = rest }) chan payload)
  unfolding encode_chunk
  consume-encoded d chan payload rest = consume_whole d chan _ _ payload rest (omega arith)

  settle-encode_chunks :
      (ks : List (ℕ × Bytes)) (d : StreamDecoder Priv)
      → settle c (record d { buf = encode_chunks ks }) ≡ handle_chunks (record d { buf = [] }) ks
  settle-encode_chunks [] d =
      settle-rest c (record d { buf = [] }) (unfold consume_one_chunk in refl)
  settle-encode_chunks ((chan, payload) ∷ ks) d =
      let empty = record d { buf = [] } in
      let after = handle_chunk c empty chan payload in
      let rest = encode_chunks ks in
      settle-step c _ _ (consume-encoded d chan payload rest)
      ∙ ap (settle c) (handle_chunk-around c empty [] rest chan payload)
      ∙ ap (λ b. settle c (record after { buf = b ++ rest }))
          (handle_chunk-buf c empty chan payload)
      ∙ settle-encode_chunks ks after
      ∙ ap (λ b. handle_chunks (record after { buf = b }) ks)
          (sym (handle_chunk-buf c empty chan payload))

  consume_stray :
      (d : StreamDecoder Priv) (x : ℕ) (rest : Bytes)
      → x ≢ 0x24
      → 3 ≤ length rest
      → consume_one_chunk c (record d { buf = x ∷ rest }) ≡ some (record d { buf = rest })
  unfolding consume_one_chunk
  consume_stray d x rest h n = ground arith

  settle_strays :
      (strays rest : Bytes) (d : StreamDecoder Priv)
      → All (λ x. x ≢ 0x24) strays
      → 3 ≤ length rest
      → settle c (record d { buf = strays ++ rest }) ≡ settle c (record d { buf = rest })
  settle_strays [] rest d h n = refl
  settle_strays (x ∷ strays) rest d h n =
      settle-step c _ _
        (consume_stray d x (strays ++ rest) h.0 (omega (arith, length-append strays rest)))
      ∙ settle_strays strays rest d h.1 n

  feed-settle :
      (d : StreamDecoder Priv) (x : Bytes)
      → d.buf ≡ []
      → 0 < length x
      → feed c d x ≡ settle c (record d { buf = x })
  unfolding feed
  feed-settle d [] e n = absurd (omega arith)
  feed-settle d (a ∷ x) e n = simp e

  -- Bytes that are no `$`, and then chunks, one after another: the decoder skips the stray bytes
  -- and handles exactly the chunks, in order, with their channels and whole payloads.
  pub feed-encode_chunks :
      (d : StreamDecoder Priv) (strays : Bytes) (k : ℕ × Bytes) (ks : List (ℕ × Bytes))
      → d.buf ≡ []
      → All (λ x. x ≢ 0x24) strays
      → feed c d (strays ++ encode_chunks (k ∷ ks)) ≡ handle_chunks d (k ∷ ks)
  feed-encode_chunks d strays k ks e h =
      let stream = encode_chunks (k ∷ ks) in
      let long : 4 ≤ length stream = unfold encode_chunk in omega arith in
      feed-settle d (strays ++ stream) e (omega (arith, length-append strays stream))
      ∙ settle_strays strays stream d h (omega arith)
      ∙ settle-encode_chunks (k ∷ ks) d
      ∙ ap (λ b. handle_chunks (record d { buf = b }) (k ∷ ks)) (sym e)

  -- The first chunk has come, and no key was derived from it.
  abbrev pub IsMute : StreamDecoder Priv → Type 0
  IsMute d = (d.first_chunk_consumed ≡ true) × (d.chacha20_key ≡ none)

  handle_chunk_mute :
      (d : StreamDecoder Priv) (chan : ℕ) (payload : Bytes)
      → IsMute d
      → handle_chunk c d chan payload ≡ d
  unfolding handle_chunk
  handle_chunk_mute d chan payload h = ground arith

  consume_mute :
      (d d' : StreamDecoder Priv)
      → IsMute d
      → consume_one_chunk c d ≡ some d'
      → (b : Bytes) × (d' ≡ record d { buf = b })
  unfolding consume_one_chunk
  consume_mute d d' h e = (
    d'.buf,
    ground (
      arith,
      handle_chunk_mute (record d { buf = drop (4 + be16_at 2 d.buf) d.buf }) (get_or d.buf 1 0)
          (slice 4 (4 + be16_at 2 d.buf) d.buf),
    ),
  )

  drain_mute :
      (f : ℕ) (d : StreamDecoder Priv)
      → IsMute d
      → (b : Bytes) × (drain c f d ≡ record d { buf = b })
  drain_mute zero d h = (d.buf, unfold drain in refl)
  drain_mute (suc f) d h = elim (Option-cases (consume_one_chunk c d)) [
    | inl e ↦ (d.buf, drain-rest c (suc f) d e)
    | inr (d', e) ↦
        let (b, same) = consume_mute d d' h e in
        let (b', more) = drain_mute f (record d { buf = b }) h in
        (b', drain-next c f d d' e ∙ ap (drain c f) same ∙ more)
  ]

  feed_mute :
      (d : StreamDecoder Priv) (x : Bytes)
      → IsMute d
      → (b : Bytes) × (feed c d x ≡ record d { buf = b })
  unfolding feed settle
  feed_mute d [] h = (d.buf, refl)
  feed_mute d (a ∷ x) h = drain_mute _ (record d { buf = d.buf ++ a ∷ x }) h

  failed_handshake :
      (d : StreamDecoder Priv) (chan : ℕ) (payload : Bytes)
      → d.first_chunk_consumed ≡ false
      → derive_keys c d.priv payload ≡ none
      → handle_chunk c d chan payload ≡ record d { first_chunk_consumed = true }
  unfolding handle_chunk
  failed_handshake d chan payload f h = ground arith

  -- The key is derived from the first chunk or never: where that fails, no input at all brings any
  -- output or a key, and no plaintext is held.
  pub feed_after_failed_handshake :
      (priv : Priv) (chan : ℕ) (payload x : Bytes)
      → derive_keys c priv payload ≡ none
      → let d = feed c (handle_chunk c (new_decoder priv) chan payload) x in
        (d.out ≡ []) × (d.pending ≡ []) × (d.chacha20_key ≡ none)
  feed_after_failed_handshake priv chan payload x h =
      let (b, e) =
        feed_mute (record (new_decoder priv) { first_chunk_consumed = true }) x (refl, refl) in
      let whole =
        ap (λ d. feed c d x) (failed_handshake (new_decoder priv) chan payload refl h) ∙ e in
      (ap (λ d. d.out) whole, ap (λ d. d.pending) whole, ap (λ d. d.chacha20_key) whole)
