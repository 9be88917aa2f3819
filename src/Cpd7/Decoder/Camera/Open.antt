-- ===== src/Cpd7/Decoder/Camera/Open.antt =====
-- `_decrypt_data_chunk` and `_handle_chunk` of decoder.py on a packet of the doorbell.
use ezviz_hp.Base.{
  ℕ, ◌+◌, ◌-◌, Bool, true, false, Option, none, some, [], ◌∷◌, ◌++◌, ltb, ◌==◌, ◌≡◌, refl, sym, ap,
  ap₂, not, if◌then◌else◌, ◌∙◌, arith, length, drop, slice, length-append, slice_part, append_assoc,
  drop-append_exact,
}
use ezviz_hp.Base.Bytes.{Bytes, AreBytes, equal}
use ezviz_hp.Cpd7.Crypto.Nonce.{transform_nonce-reverse}
use ezviz_hp.Cpd7.Ciphers.{Ciphers}
use ezviz_hp.Cpd7.Decoder.{
  StreamDecoder, nonce_12b, log_first, absorb_if_any, decrypt_body, decrypt_data_chunk, take_data,
  take_handshake, handle_chunk,
}
use ezviz_hp.Cpd7.Decoder.Camera.{
  Doorbell, Undoes, Packet, IsPacket, packet_payload, cipher_nonce, turned,
}

-- The decoder derives the nonce with which the doorbell encrypted.
nonce_12b-cipher :
    (nonce : Bytes) → length nonce ≡ 4 → AreBytes nonce → nonce_12b nonce ≡ cipher_nonce nonce
unfolding nonce_12b cipher_nonce
nonce_12b-cipher [] l h = absurd (omega (arith, l))
nonce_12b-cipher (a ∷ []) l h = absurd (omega (arith, l))
nonce_12b-cipher (a ∷ b ∷ []) l h = absurd (omega (arith, l))
nonce_12b-cipher (a ∷ b ∷ c ∷ []) l h = absurd (omega (arith, l))
nonce_12b-cipher (a ∷ b ∷ c ∷ d ∷ []) l h =
    ap (λ n. n ++ (0 ∷ 0 ∷ 0 ∷ 0 ∷ 0 ∷ 0 ∷ 0 ∷ 0 ∷ [])) (transform_nonce-reverse a b c d h)
nonce_12b-cipher (a ∷ b ∷ c ∷ d ∷ e ∷ more) l h = absurd (omega (arith, l))

length-cipher_nonce : (nonce : Bytes) → length nonce ≡ 4 → length (cipher_nonce nonce) ≡ 12
unfolding cipher_nonce turned
length-cipher_nonce [] l = absurd (omega (arith, l))
length-cipher_nonce (a ∷ []) l = absurd (omega (arith, l))
length-cipher_nonce (a ∷ b ∷ []) l = absurd (omega (arith, l))
length-cipher_nonce (a ∷ b ∷ c ∷ []) l = absurd (omega (arith, l))
length-cipher_nonce (a ∷ b ∷ c ∷ d ∷ []) l = refl
length-cipher_nonce (a ∷ b ∷ c ∷ d ∷ e ∷ more) l = absurd (omega (arith, l))

-- the parts of a packet behind the outer prefix
abbrev inner : Bytes → Bytes → Bytes → Bytes → Bytes
inner fields nonce cipher hmac = 0x24 ∷ 0x02 ∷ (fields ++ (nonce ++ (cipher ++ hmac)))

module _ (fields nonce cipher hmac : Bytes) (f : length fields ≡ 5) (n : length nonce ≡ 4)
    (t : length hmac ≡ 32) where
  length-inner : length (inner fields nonce cipher hmac) ≡ 0x0b + length cipher + 32
  length-inner = omega (
    arith,
    length-append fields (nonce ++ (cipher ++ hmac)),
    length-append nonce (cipher ++ hmac),
    length-append cipher hmac,
    f,
    n,
    t,
  )

  nonce_part : slice 7 11 (inner fields nonce cipher hmac) ≡ nonce
  nonce_part = slice_part 7 4 (0x24 ∷ 0x02 ∷ fields) nonce (cipher ++ hmac) (omega (arith, f)) n

  cipher_part :
      slice 0x0b (length (inner fields nonce cipher hmac) - 32) (inner fields nonce cipher hmac)
      ≡ cipher
  cipher_part =
      let body_end : length (inner fields nonce cipher hmac) - 32 ≡ 0x0b + length cipher =
        omega (arith, length-inner) in
      ap (λ (k : ℕ). slice 0x0b k (inner fields nonce cipher hmac)) body_end
      ∙ ap (λ x. slice 0x0b (0x0b + length cipher) (0x24 ∷ 0x02 ∷ x))
          (sym (append_assoc fields nonce (cipher ++ hmac)))
      ∙ slice_part 0x0b (length cipher) (0x24 ∷ 0x02 ∷ (fields ++ nonce)) cipher hmac
          (omega (arith, length-append fields nonce, f, n)) refl

  not_short : ltb (length (inner fields nonce cipher hmac)) (0x0b + 32) ≡ false
  not_short = ground (arith, length-inner)

module _ {Priv Pub : Type 0} (c : Ciphers Priv Pub) where
  body-found :
      (d : StreamDecoder Priv) (pkt key nonce cipher plain : Bytes)
      → slice 7 11 pkt ≡ nonce
      → slice 0x0b (length pkt - 32) pkt ≡ cipher
      → c.chacha20_decrypt key (nonce_12b nonce) cipher ≡ some plain
      → decrypt_body c d key pkt ≡ log_first d plain
  unfolding decrypt_body
  body-found d pkt key nonce cipher plain n b x = rw (decrypt_body, n, b, x)

  decrypt-found :
      (d : StreamDecoder Priv) (chunk pkt key : Bytes)
      → d.chacha20_key ≡ some key
      → ltb (length chunk) 4 ≡ false
      → drop 4 chunk ≡ pkt
      → equal (slice 0 2 pkt) (0x24 ∷ 0x02 ∷ []) ≡ true
      → ltb (length pkt) (0x0b + 32) ≡ false
      → decrypt_data_chunk c d chunk ≡ decrypt_body c d key pkt
  unfolding decrypt_data_chunk
  decrypt-found d chunk pkt key e s p q l =
      ap
        (λ (o : Option Bytes). if ltb (length chunk) 4 then ([], d) else elim o [
          | none ↦ ([], d)
          | some k ↦
              if not (equal (slice 0 2 (drop 4 chunk)) (0x24 ∷ 0x02 ∷ []))
              then ([], d)
              else if ltb (length (drop 4 chunk)) (0x0b + 32)
              then ([], d)
              else decrypt_body c d k (drop 4 chunk)
        ])
        e
      ∙ rw (s, p, q, l)

  decrypt-packet :
      (m : Doorbell Priv Pub)
      → Undoes c m
      → (d : StreamDecoder Priv) (key : Bytes) (p : Packet) → length key ≡ 32
      → d.chacha20_key ≡ some key
      → IsPacket p
      → decrypt_data_chunk c d (packet_payload m key p) ≡ log_first d p.plain
  unfolding packet_payload
  decrypt-packet m u d key p k e h =
      let cipher = m.chacha20_encrypt key (cipher_nonce p.nonce) p.plain in
      let pkt = inner p.fields p.nonce cipher p.hmac in
      decrypt-found d (p.prefix ++ pkt) pkt key e
        (ground (arith, length-append p.prefix pkt, h.prefix))
        (drop-append_exact 4 p.prefix pkt h.prefix) (unfold equal in refl)
        (not_short p.fields p.nonce cipher p.hmac h.fields h.nonce h.hmac)
      ∙ body-found d pkt key p.nonce cipher p.plain
          (nonce_part p.fields p.nonce cipher p.hmac h.fields h.nonce h.hmac)
          (cipher_part p.fields p.nonce cipher p.hmac h.fields h.nonce h.hmac)
          (ap (λ n. c.chacha20_decrypt key n cipher)
              (nonce_12b-cipher p.nonce h.nonce h.nonce_bytes)
            ∙ u.opens key (cipher_nonce p.nonce) p.plain k (length-cipher_nonce p.nonce h.nonce))

  -- A packet is absorbed whole.
  pub handle_chunk-packet :
      (m : Doorbell Priv Pub)
      → Undoes c m
      → (d : StreamDecoder Priv) (key : Bytes) (p : Packet) → length key ≡ 32
      → d.first_chunk_consumed ≡ true
      → d.chacha20_key ≡ some key
      → IsPacket p
      → handle_chunk c d 1 (packet_payload m key p)
        ≡ absorb_if_any (log_first d p.plain).1 (log_first d p.plain).0
  unfolding handle_chunk take_data
  handle_chunk-packet m u d key p k f e h =
      let payload = packet_payload m key p in
      ap₂
        (λ (b : Bool) (o : Option Bytes).
          if not b
          then take_handshake c d payload
          else elim o [ none ↦ d | some _ ↦ take_data c d payload ])
        f e
      ∙ ap (λ (r : Bytes × StreamDecoder Priv). absorb_if_any r.1 r.0)
          (decrypt-packet m u d key p k e h)

  -- A chunk of another channel is passed over.
  pub handle_chunk-other :
      (d : StreamDecoder Priv) (chan : ℕ) (payload : Bytes)
      → d.first_chunk_consumed ≡ true
      → (chan == 1) ≡ false
      → handle_chunk c d chan payload ≡ d
  unfolding handle_chunk
  handle_chunk-other d chan payload f h = rw (f, h)
