-- ===== src/Cpd7/Decoder/Camera/Stream.antt =====
-- A whole session of the doorbell, from the handshake on, through decoder.py.
use ezviz_hp.Base.{
  ℕ, ◌≤◌, true, none, some, List, [], ◌∷◌, ◌++◌, ◌≡◌, refl, sym, ap, ◌∙◌, arith, length, drop,
  length-append, append_assoc, append-nil, drop-append,
}
use mathlib.Core.Path.{subst}
use ezviz_hp.Base.Bytes.{Bytes, All}
use ezviz_hp.Cpd7.Ciphers.{Ciphers}
use ezviz_hp.Cpd7.Decoder.{
  StreamDecoder, new_decoder, find_keyframe, start_of_output, handle_chunk, take_handshake, feed,
  take, max_pre_keyframe_buf,
}
use ezviz_hp.Cpd7.Decoder.Keyframe.{find_keyframe-append}
use ezviz_hp.Cpd7.Decoder.Gate.{start_of_output-le}
use ezviz_hp.Cpd7.Decoder.Chunks.{encode_chunks, handle_chunks, feed-encode_chunks}
use ezviz_hp.Cpd7.Decoder.Segments.{concat, pump_segments, pump_segments-take}
use ezviz_hp.Cpd7.Decoder.Camera.{
  Doorbell, Undoes, Hello, IsHello, Packet, IsPacket, Sent, packet, other, IsSent, plaintext_of,
  plaintexts, hello_payload, chunk_of, chunks_of,
}
use ezviz_hp.Cpd7.Decoder.Camera.Handshake.{derive_keys-hello}
use ezviz_hp.Cpd7.Decoder.Camera.Open.{handle_chunk-packet, handle_chunk-other}
use ezviz_hp.Cpd7.Decoder.Camera.Absorb.{Waits, Runs, Waits-absorb, Waits-starts, Runs-absorb}

module _ {Priv Pub : Type 0} (c : Ciphers Priv Pub) (m : Doorbell Priv Pub) (u : Undoes c m)
    (key : Bytes) (l32 : length key ≡ 32) where
  Waits-sent :
      (d : StreamDecoder Priv) (held : Bytes) (x : Sent)
      → Waits key held d
      → IsSent x
      → find_keyframe (held ++ plaintext_of x) ≡ none
      → length (held ++ plaintext_of x) ≤ max_pre_keyframe_buf
      → let (chan, payload) = chunk_of m key x in
        Waits key (held ++ plaintext_of x) (handle_chunk c d chan payload)
  Waits-sent d held (packet p) w h f l =
      subst (Waits key (held ++ p.plain))
        (sym (handle_chunk-packet c m u d key p l32 w.consumed w.keyed h))
        (Waits-absorb key d held p.plain w f l)
  Waits-sent d held (other chan payload) w h f l =
      rw append-nil
        (subst (Waits key held) (sym (handle_chunk-other c d chan payload w.consumed h)) w)

  Runs-sent :
      (d : StreamDecoder Priv) (out : Bytes) (x : Sent)
      → Runs key out d
      → IsSent x
      → let (chan, payload) = chunk_of m key x in
        Runs key (out ++ plaintext_of x) (handle_chunk c d chan payload)
  Runs-sent d out (packet p) w h =
      subst (Runs key (out ++ p.plain))
        (sym (handle_chunk-packet c m u d key p l32 w.consumed w.keyed h))
        (Runs-absorb key d out p.plain w)
  Runs-sent d out (other chan payload) w h =
      rw append-nil
        (subst (Runs key out) (sym (handle_chunk-other c d chan payload w.consumed h)) w)

  Runs-plaintexts :
      (xs : List Sent) (d : StreamDecoder Priv) (out : Bytes)
      → Runs key out d
      → All IsSent xs
      → Runs key (out ++ plaintexts xs) (handle_chunks c d (chunks_of m key xs))
  Runs-plaintexts [] d out w h = rw append-nil w
  Runs-plaintexts (x ∷ xs) d out w h =
      subst (λ o. Runs key o (handle_chunks c d (chunks_of m key (x ∷ xs))))
        (append_assoc out (plaintext_of x) (plaintexts xs))
        (Runs-plaintexts xs _ (out ++ plaintext_of x) (Runs-sent d out x w h.0) h.1)

  Runs-packet :
      (p : Packet) (ys : List Sent) (d : StreamDecoder Priv) (held : Bytes) (i : ℕ)
      → Waits key held d
      → IsPacket p
      → All IsSent ys
      → find_keyframe held ≡ none
      → find_keyframe (held ++ p.plain) ≡ some i
      → let buf = held ++ p.plain in
        Runs key
          (drop (start_of_output buf i) buf ++ plaintexts ys)
          (handle_chunks c d (chunks_of m key (packet p ∷ ys)))
  Runs-packet p ys d held i w h hs n f =
      let buf = held ++ p.plain in
      Runs-plaintexts ys _ (drop (start_of_output buf i) buf)
        (subst (Runs key (drop (start_of_output buf i) buf))
          (sym (handle_chunk-packet c m u d key p l32 w.consumed w.keyed h))
          (Waits-starts key d held p.plain i w n f))
        hs

  -- What comes before the first keyframe is held; the packet that brings it starts the output.
  Runs-stream :
      (xs : List Sent) (p : Packet) (ys : List Sent) (d : StreamDecoder Priv) (held whole : Bytes)
      (i : ℕ)
      → held ++ plaintexts xs ≡ whole
      → Waits key held d
      → All IsSent xs
      → IsPacket p
      → All IsSent ys
      → find_keyframe whole ≡ none
      → length whole ≤ max_pre_keyframe_buf
      → find_keyframe (whole ++ p.plain) ≡ some i
      → let buf = whole ++ p.plain in
        Runs key
          (drop (start_of_output buf i) buf ++ plaintexts ys)
          (handle_chunks c d (chunks_of m key (xs ++ packet p ∷ ys)))
  Runs-stream [] p ys d held whole i e w h g k n l f =
      let same : held ≡ whole = sym (append-nil held) ∙ e in
      Runs-packet p ys d whole i (subst (λ x. Waits key x d) same w) g k n f
  Runs-stream (x ∷ xs) p ys d held whole i e w h g k n l f =
      let split = append_assoc held (plaintext_of x) (plaintexts xs) ∙ e in
      let early =
        find_keyframe-append (held ++ plaintext_of x) (plaintexts xs)
          (ap find_keyframe split ∙ n) in
      let short : length (held ++ plaintext_of x) ≤ max_pre_keyframe_buf =
        omega (arith, l, ap length split, length-append (held ++ plaintext_of x) (plaintexts xs)) in
      Runs-stream xs p ys _ (held ++ plaintext_of x) whole i split
        (Waits-sent d held x w h.0 early short) h.1 g k n l f

  plaintexts-append :
      (xs : List Sent) (p : Packet) (ys : List Sent)
      → plaintexts (xs ++ packet p ∷ ys) ≡ (plaintexts xs ++ p.plain) ++ plaintexts ys
  plaintexts-append [] p ys = refl
  plaintexts-append (x ∷ xs) p ys =
      ap (λ r. plaintext_of x ++ r) (plaintexts-append xs p ys)
      ∙ sym (append_assoc (plaintext_of x) (plaintexts xs ++ p.plain) (plaintexts ys))
      ∙ ap (λ r. r ++ plaintexts ys) (sym (append_assoc (plaintext_of x) (plaintexts xs) p.plain))

  -- the decoder after the handshake
  Waits-hello :
      (h : Hello) (priv camera : Priv) (chan : ℕ)
      → IsHello h
      → Waits key []
          (handle_chunk c (new_decoder priv) chan (hello_payload m h camera (m.public_of priv) key))
  unfolding handle_chunk take_handshake
  Waits-hello h priv camera chan g =
      subst
        (λ o. Waits key [] (elim o [
          | none ↦ record (new_decoder priv) { first_chunk_consumed = true }
          | some k ↦ record (new_decoder priv) {
            first_chunk_consumed = true;
            chacha20_key = some k;
          }
        ]))
        (sym (derive_keys-hello c m u h priv camera key g l32))
        (record { consumed = refl; keyed = refl; waiting = refl; pending = refl; silent = refl })

-- With libraries that undo what the doorbell does, for keys, secrets and nonces of the lengths that
-- they take, and a session of it, in whatever segments it is read: a handshake with a key of 32
-- bytes, then packets and chunks of other channels, of which `p` brings the first keyframe, at `i`
-- of the plaintext, with no more than `max_pre_keyframe_buf` bytes before that packet. The doorbell
-- encrypts with the bytes of its nonce turned round and eight zeros. Then what the decoder hands on
-- is exactly the plaintext that the doorbell encrypted, from the place on that `_absorb_plain`
-- chooses for the keyframe.
pub pump_segments-chunks_of :
    {Priv Pub : Type 0} (c : Ciphers Priv Pub) (m : Doorbell Priv Pub) (h : Hello)
    (priv camera : Priv) (key : Bytes) (chan : ℕ) (xs : List Sent) (p : Packet) (ys : List Sent)
    (i : ℕ) (raws : List Bytes)
    → Undoes c m
    → IsHello h
    → length key ≡ 32
    → All IsSent xs
    → IsPacket p
    → All IsSent ys
    → find_keyframe (plaintexts xs) ≡ none
    → length (plaintexts xs) ≤ max_pre_keyframe_buf
    → find_keyframe (plaintexts xs ++ p.plain) ≡ some i
    → concat raws
      ≡ encode_chunks (
          (chan, hello_payload m h camera (m.public_of priv) key)
          ∷ chunks_of m key (xs ++ packet p ∷ ys))
    → (pump_segments c (new_decoder priv) raws).0
      ≡ drop (start_of_output (plaintexts xs ++ p.plain) i) (plaintexts (xs ++ packet p ∷ ys))
unfolding take
pump_segments-chunks_of c m h priv camera key chan xs p ys i raws u g l hs k ks n s f e =
    let d = new_decoder priv in
    let buf = plaintexts xs ++ p.plain in
    let hello : ℕ × Bytes = (chan, hello_payload m h camera (m.public_of priv) key) in
    let chunks = chunks_of m key (xs ++ packet p ∷ ys) in
    ap (λ r. r.0) (pump_segments-take c d raws)
    ∙ ap (λ x. (feed c d x).out) e
    ∙ ap (λ r. r.out) (feed-encode_chunks c d [] hello chunks refl tt)
    ∙ (Runs-stream c m u key l xs p ys _ [] (plaintexts xs) i refl
        (Waits-hello c m u key l h priv camera chan g) hs k ks n s f).result
    ∙ sym (drop-append (start_of_output buf i) buf (plaintexts ys) (start_of_output-le buf i f))
    ∙ ap (drop (start_of_output buf i)) (sym (plaintexts-append c m u key l xs p ys))
