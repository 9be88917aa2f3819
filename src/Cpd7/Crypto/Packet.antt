-- ===== src/Cpd7/Crypto/Packet.antt =====
-- `parse_ecdh_packet` of crypto.py.
use ezviz_hp.Base.{
  ℕ, ◌+◌, ◌*◌, ◌/◌, ◌%◌, ◌≤◌, ◌<◌, none, some, [], ◌∷◌, ◌++◌, ◌≡◌, ◌⊎◌, ◌↔◌, inl, inr, append_assoc,
  refl, ap, ◌∙◌, arith, length, length-append, get_or, slice, slice-skip, slice_front, length-slice,
  take-length, ◌==◌, if◌then◌else◌,
}
use mathlib.Core.Path.{subst}
use ezviz_hp.Base.Bytes.{Bytes, be16_at}
use ezviz_hp.Cpd7.Crypto.{
  EcdhPacket, fields_of, parse_ecdh_packet, header_fixed, trailer_size, ecdh_magic, ecdh_type_req,
  ecdh_type_data,
}

-- The layout of a packet: the fixed header up to the nonce, the key and the public key, the
-- payload, the trailer.
pub record Layout : Type 0 where
  pub pkt_type : ℕ
  pub header_len : ℕ
  pub sub_type : ℕ
  pub nonce : Bytes
  pub key : Bytes
  pub pubkey : Bytes
  pub payload : Bytes
  pub trailer : Bytes

unfoldable pub encode : Layout → Bytes
encode l =
    (ecdh_magic
      ∷ l.pkt_type
      ∷ l.header_len
      ∷ (length l.payload / 256)
      ∷ (length l.payload % 256)
      ∷ 0x01
      ∷ l.sub_type
      ∷ [])
    ++ (l.nonce ++ (l.key ++ (l.pubkey ++ (l.payload ++ l.trailer))))

pub record IsLayout (l : Layout) : Type 0 where
  pub nonce : length l.nonce ≡ 4
  pub key : length l.key ≡ 32
  pub pubkey : length l.pubkey ≡ 91
  pub trailer : length l.trailer ≡ 40

-- What `parse_ecdh_packet` asks of its input.
pub record IsEcdh (bytes : Bytes) : Type 0 where
  pub long : 174 ≤ length bytes
  pub magic : get_or bytes 0 0 ≡ 0x24
  pub known : (get_or bytes 1 0 ≡ 0x01) ⊎ (get_or bytes 1 0 ≡ 0x02)
  pub marker : get_or bytes 5 0 ≡ 0x01

parse-accepts : (bytes : Bytes) → IsEcdh bytes → parse_ecdh_packet bytes ≡ some (fields_of bytes)
unfolding parse_ecdh_packet
parse-accepts bytes h = ground arith

parse-IsEcdh : (bytes : Bytes) (p : EcdhPacket) → parse_ecdh_packet bytes ≡ some p → IsEcdh bytes
unfolding parse_ecdh_packet
parse-IsEcdh bytes p h = record {
  long = ground arith;
  magic = ground arith;
  known = ground arith;
  marker = ground arith;
}

-- `parse_ecdh_packet` returns a packet exactly when the input has 174 bytes or more, a `$` at 0, a
-- known type at 1 and the marker at 5. Nothing else is asked.
parse_iff : (bytes : Bytes) → IsEcdh bytes ↔ ((p : EcdhPacket) × (parse_ecdh_packet bytes ≡ some p))
parse_iff bytes = (λ h. (fields_of bytes, parse-accepts bytes h), λ (p, e). parse-IsEcdh bytes p e)

-- The announced payload length is not checked: where it reaches past the input less the trailer,
-- the packet is accepted and its trailer has fewer than 40 bytes.
parse_short_trailer :
    (bytes : Bytes) (p : EcdhPacket)
    → parse_ecdh_packet bytes ≡ some p
    → length bytes < 0x86 + be16_at 3 bytes + 40
    → length p.trailer < 40
parse_short_trailer bytes p e h =
    let from = 0x86 + be16_at 3 bytes in
    let same : fields_of bytes ≡ p = cc (parse-accepts bytes (parse-IsEcdh bytes p e)) in
    subst (λ (q : EcdhPacket). length q.trailer < 40) same
      (unfold fields_of in omega (arith, length-slice from (from + 40) bytes))

slice_from : (n k : ℕ) (xs : Bytes) → slice n (n + k) xs ≡ slice (n + 0) (n + k) xs
slice_from n k xs = ap (λ (a : ℕ). slice a (n + k) xs) (omega arith)

be16_split : (n : ℕ) → n / 256 * 256 + n % 256 ≡ n
be16_split n = omega arith

module _ (l : Layout) (h : IsLayout l) where
  encode-nonce : slice 7 (7 + 4) (encode l) ≡ l.nonce
  unfolding encode
  encode-nonce = slice_front 4 l.nonce _ h.nonce

  encode-key : slice 0x0b (0x0b + 32) (encode l) ≡ l.key
  unfolding encode
  encode-key = slice-skip 4 0 32 l.nonce _ h.nonce ∙ slice_front 32 l.key _ h.key

  encode-pubkey : slice 0x2b (0x2b + 91) (encode l) ≡ l.pubkey
  unfolding encode
  encode-pubkey =
      slice-skip 4 32 123 l.nonce _ h.nonce
      ∙ slice-skip 32 0 91 l.key _ h.key
      ∙ slice_front 91 l.pubkey _ h.pubkey

  encode-tail :
      (a b : ℕ)
      → slice (header_fixed + a) (header_fixed + b) (encode l) ≡ slice a b (l.payload ++ l.trailer)
  unfolding encode
  encode-tail a b =
      let fields = l.nonce ++ (l.key ++ l.pubkey) in
      let head =
        (ecdh_magic
          ∷ l.pkt_type
          ∷ l.header_len
          ∷ (length l.payload / 256)
          ∷ (length l.payload % 256)
          ∷ 0x01
          ∷ l.sub_type
          ∷ fields) in
      let long : length head ≡ 0x86 = omega (
        arith,
        length-append l.nonce (l.key ++ l.pubkey),
        length-append l.key l.pubkey,
        h.nonce,
        h.key,
        h.pubkey,
      ) in
      simp append_assoc at (slice-skip 0x86 a b head (l.payload ++ l.trailer) long)

  length-encode : length (encode l) ≡ header_fixed + length l.payload + trailer_size
  unfolding encode
  length-encode = omega (
    arith,
    length-append l.nonce (l.key ++ (l.pubkey ++ (l.payload ++ l.trailer))),
    length-append l.key (l.pubkey ++ (l.payload ++ l.trailer)),
    length-append l.pubkey (l.payload ++ l.trailer),
    length-append l.payload l.trailer,
    h.nonce,
    h.key,
    h.pubkey,
    h.trailer,
  )

  bytes_of :
      (get_or (encode l) 0 0 ≡ 0x24)
      × (get_or (encode l) 1 0 ≡ l.pkt_type)
      × (get_or (encode l) 2 0 ≡ l.header_len)
      × (get_or (encode l) 5 0 ≡ 0x01)
      × (get_or (encode l) 6 0 ≡ l.sub_type)
  unfolding encode
  bytes_of = (refl, refl, refl, refl, refl)

  abbrev pub expected : EcdhPacket
  expected = record {
    pkt_type = l.pkt_type;
    header_len = l.header_len;
    payload_len = length l.payload;
    sub_type = l.sub_type;
    nonce_raw = l.nonce;
    payload = l.payload;
    trailer = l.trailer;
    encrypted_key = if l.pkt_type == ecdh_type_req then some l.key else none;
    peer_pubkey = if l.pkt_type == ecdh_type_req then some l.pubkey else none;
  }

  encode-payload : slice 0x86 (0x86 + length l.payload) (encode l) ≡ l.payload
  encode-payload =
      encode-tail 0 (length l.payload) ∙ slice_front (length l.payload) l.payload l.trailer refl

  encode-trailer :
      slice (0x86 + length l.payload) (0x86 + length l.payload + 40) (encode l) ≡ l.trailer
  encode-trailer =
      let n = length l.payload in
      let regroup : 0x86 + n + 40 ≡ 0x86 + (n + 40) = omega arith in
      rw regroup (
        encode-tail n (n + 40)
        ∙ slice_from n 40 (l.payload ++ l.trailer)
        ∙ slice-skip n 0 40 l.payload l.trailer refl
        ∙ take-length 40 l.trailer (omega (arith, h.trailer)))

  fields_of-encode : fields_of (encode l) ≡ expected
  unfolding fields_of
  fields_of-encode =
      let (e₀, e₁, e₂, e₅, e₆) = bytes_of in
      let e : be16_at 3 (encode l) ≡ length l.payload =
        unfold encode in be16_split (length l.payload) in
      rw (e, e₁, e₂, e₆, encode-nonce, encode-key, encode-pubkey, encode-payload, encode-trailer)

  -- A packet of either type is read back field by field; the key and the public key of a request
  -- only.
  pub parse-encode :
      (l.pkt_type ≡ ecdh_type_req) ⊎ (l.pkt_type ≡ ecdh_type_data)
      → parse_ecdh_packet (encode l) ≡ some expected
  parse-encode t =
      let (e₀, e₁, e₂, e₅, e₆) = bytes_of in
      parse-accepts (encode l) (record {
        long = omega (arith, length-encode);
        magic = e₀;
        known = elim t [ inl p ↦ inl (e₁ ∙ p) | inr p ↦ inr (e₁ ∙ p) ];
        marker = e₅;
      })
      ∙ ap some fields_of-encode
