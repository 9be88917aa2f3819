-- ===== src/Cpd7/Lan/Packet.antt =====
-- The packets of lan_client.py on the wire.
use ezviz_hp.Base.{
  ℕ, ◌+◌, ◌-◌, ◌<◌, ◌^◌, false, some, [], ◌∷◌, ◌++◌, ◌≡◌, refl, sym, ap, ◌∙◌, arith, length, take,
  slice, length-append, append_assoc, take-append_exact, lt→ltb, ltb,
}
use ezviz_hp.Base.Bytes.{Bytes, equal, pack_be32, unpack_be32, unpack-pack_be32}
use ezviz_hp.Base.Search.{is_prefix}
use ezviz_hp.Socket.{Incoming}
use ezviz_hp.Socket.Exact.{stream, IsIncoming, recv_exact-Part}
use ezviz_hp.Cpd7.Lan.{
  Control, magic, xml_start, header_len, recv_response, build_packet, plain_of, parse_response,
}

-- the 32 bytes in front of a body of length `n`
unfoldable pub header_bytes : ℕ → ℕ → ℕ → Bytes
header_bytes seq cmd n =
    magic
    ++ ((0x01 ∷ 0x00 ∷ 0x00 ∷ 0x00 ∷ [])
        ++ (pack_be32 seq
            ++ ((0 ∷ 0 ∷ 0 ∷ 0 ∷ [])
                ++ (pack_be32 cmd
                    ++ ((0xff ∷ 0xff ∷ 0xff ∷ 0xff ∷ [])
                        ++ (pack_be32 n ++ (0 ∷ 0 ∷ 0 ∷ 0 ∷ [])))))))

-- A hexadecimal MD5 digest has 32 characters.
abbrev pub HasDigests : Control → Type 0
HasDigests k = (body : Bytes) → length (k.md5 body) ≡ 32

-- What was encrypted under a key is decrypted under it.
abbrev pub IsCipher : Control → Type 0
IsCipher k =
    (key plain body : Bytes) → k.encrypt key plain ≡ some body → k.decrypt key body ≡ some plain

length-header_bytes : (seq cmd n : ℕ) → length (header_bytes seq cmd n) ≡ 32
unfolding header_bytes
length-header_bytes seq cmd n = refl

module _ (k : Control) where
  -- the packet around a cipher text
  packet_of : ℕ → ℕ → Bytes → Bytes
  packet_of seq cmd body = header_bytes seq cmd (length body) ++ (body ++ k.md5 body)

  build_packet-bytes :
      (seq cmd : ℕ) (xml key body : Bytes)
      → k.encrypt key xml ≡ some body
      → seq < 2 ^ 32
      → cmd < 2 ^ 32
      → length body < 2 ^ 32
      → build_packet k seq cmd xml key ≡ some (packet_of seq cmd body)
  unfolding build_packet packet_of header_bytes
  build_packet-bytes seq cmd xml key body e s c l =
      rw (e, lt→ltb seq (2 ^ 32) s, lt→ltb cmd (2 ^ 32) c, lt→ltb (length body) (2 ^ 32) l)

  announced : (seq cmd n : ℕ) → n < 2 ^ 32 → unpack_be32 (slice 24 28 (header_bytes seq cmd n)) ≡ n
  unfolding header_bytes
  announced seq cmd n h = unpack-pack_be32 n h

  recv-packet_of :
      (seq cmd : ℕ) (body rest : Bytes) (sock : Incoming)
      → length body < 2 ^ 32
      → HasDigests k
      → IsIncoming sock
      → stream sock ≡ packet_of seq cmd body ++ rest
      → (left : Incoming) × (recv_response sock ≡ some (packet_of seq cmd body, left))
        × (stream left ≡ rest)
  unfolding recv_response packet_of
  recv-packet_of seq cmd body rest sock l d i e =
      let h = header_bytes seq cmd (length body) in
      let tail = body ++ k.md5 body in
      let p =
        recv_exact-Part h (tail ++ rest) 32 sock i (e ∙ append_assoc h tail rest)
          (length-header_bytes seq cmd (length body)) in
      let size : length tail ≡ length body + 32 =
        length-append body (k.md5 body) ∙ ap (λ (n : ℕ). length body + n) (d body) in
      let q = recv_exact-Part tail rest (length body + 32) p.left p.incoming p.follows size in
      (q.left, rw (p.result, announced seq cmd (length body) l, q.result), q.follows)

  body_of :
      (seq cmd : ℕ) (body : Bytes)
      → slice header_len (header_len + length body) (packet_of seq cmd body) ≡ body
  unfolding packet_of header_bytes
  body_of seq cmd body =
      ap (λ (n : ℕ). take n (body ++ k.md5 body)) {x = 32 + length body - 32} (omega arith)
      ∙ take-append_exact (length body) body (k.md5 body) refl

  parse-packet_of :
      (seq cmd : ℕ) (body plain key : Bytes)
      → seq < 2 ^ 32
      → cmd < 2 ^ 32
      → length body < 2 ^ 32
      → plain_of k key body ≡ some plain
      → parse_response k (packet_of seq cmd body) key
        ≡ some (record { seq = seq; cmd = cmd; body_len = length body }, plain)
  unfolding parse_response packet_of header_bytes equal
  parse-packet_of seq cmd body plain key s c l p =
      let long : ltb (length (packet_of seq cmd body)) 28 ≡ false = ground arith in
      let n = unpack-pack_be32 (length body) l in
      let cut : slice header_len (header_len + unpack_be32 (pack_be32 (length body)))
            (packet_of seq cmd body)
          ≡ body =
        ap (λ (m : ℕ). slice header_len (header_len + m) (packet_of seq cmd body)) n
        ∙ body_of seq cmd body in
      rw (long, cut, p)
        (λ i. some (
          record { seq = unpack-pack_be32 seq s i; cmd = unpack-pack_be32 cmd c i; body_len = n i },
          plain,
        ))

  -- With digests of 32 characters and a cipher that decrypts what it encrypted: a packet that
  -- `_build_packet` made, of numbers and a length below 2 ^ 32, around a cipher text that does not look
  -- like XML, is received as it was sent, however the network cuts it; what follows it stays, and
  -- `_parse_response` gives back the numbers and the text.
  pub recv-build_packet :
      HasDigests k
      → IsCipher k
      → (seq cmd : ℕ) (xml key body packet rest : Bytes) (sock : Incoming)
      → k.encrypt key xml ≡ some body
      → is_prefix xml_start body ≡ false
      → seq < 2 ^ 32
      → cmd < 2 ^ 32
      → length body < 2 ^ 32
      → build_packet k seq cmd xml key ≡ some packet
      → IsIncoming sock
      → stream sock ≡ packet ++ rest
      → (left : Incoming) × (recv_response sock ≡ some (packet, left))
        × (stream left ≡ rest)
        × (parse_response k packet key
            ≡ some (record { seq = seq; cmd = cmd; body_len = length body }, xml))
  recv-build_packet d cipher seq cmd xml key body packet rest sock e x s c l b i whole =
      let same : packet_of seq cmd body ≡ packet =
        cc (build_packet-bytes seq cmd xml key body e s c l, b) in
      let (left, received, follows) =
        recv-packet_of seq cmd body rest sock l d i (whole ∙ ap (λ p. p ++ rest) (sym same)) in
      let plain : plain_of k key body ≡ some xml =
        unfold plain_of in rw x (cipher key xml body e) in
      (
        left,
        received ∙ ap (λ p. some (p, left)) same,
        follows,
        ap (λ p. parse_response k p key) (sym same)
            ∙ parse-packet_of seq cmd body xml key s c l plain,
      )
