-- ===== src/Cpd7/Tests/Camera.antt =====
-- A session of a small doorbell, and the theorem at it.
use ezviz_hp.Base.{
  ℕ, ◌+◌, none, some, List, [], ◌∷◌, ◌++◌, ◌≡◌, refl, ap, arith, get_or, ◌&&◌, ◌==◌, if◌then◌else◌,
  length, replicate, drop, take, append-nil, take-append-drop, ◌∙◌,
}
use ezviz_hp.Base.Bytes.{Bytes}
use ezviz_hp.Base.Search.{is_prefix, find, rfind}
use ezviz_hp.Cpd7.Ciphers.{Ciphers}
use ezviz_hp.Cpd7.Decoder.{new_decoder, find_keyframe, start_of_output, h264_sps_3b, mpeg_ps_pack}
use ezviz_hp.Cpd7.Decoder.Chunks.{encode_chunks}
use ezviz_hp.Cpd7.Decoder.Segments.{pump_segments}
use ezviz_hp.Cpd7.Decoder.Camera.{
  Doorbell, Undoes, Hello, Packet, IsPacket, Sent, packet, other, plaintexts, hello_payload,
  chunks_of,
}
use ezviz_hp.Cpd7.Decoder.Camera.Stream.{pump_segments-chunks_of}

-- Keys are numbers, the secret repeats a sum, and the ciphers return their input, but refuse keys and
-- nonces of another length.
abbrev toy : Ciphers ℕ ℕ
toy = record {
  load_der_public_key = λ der. some (get_or der 0 0);
  exchange = λ priv peer. some (replicate 32 (priv + peer));
  aes_ecb_decrypt = λ key bytes. if length key == 32 then some bytes else none;
  chacha20_decrypt =
      λ key nonce body. if length key == 32 && length nonce == 12 then some body else none;
}

abbrev doorbell : Doorbell ℕ ℕ
doorbell = record {
  der = λ p. replicate 91 p;
  public_of = λ priv. priv;
  agree = λ priv peer. replicate 32 (priv + peer);
  aes_ecb_encrypt = λ key bytes. bytes;
  chacha20_encrypt = λ key nonce plain. plain;
}

sum_twice : (a b : ℕ) → a + b ≡ b + a
sum_twice a b = omega arith

toy-Undoes : Undoes toy doorbell
toy-Undoes = record {
  der_length = λ p. refl;
  loads = λ p. refl;
  agrees = λ a b. ap (λ (s : ℕ). some (replicate 32 s)) (sum_twice a b);
  secret_length = λ a p. refl;
  wrapped_length = λ shared key s h. h;
  unwraps = λ shared key s h. ground (arith, s);
  opens = λ key nonce plain k n. ground (arith, k, n);
}

abbrev hello : Hello
hello = record { lead = 1 ∷ 2 ∷ []; reserved = replicate 8 0; extra = 9 ∷ []; trailer = [] }

abbrev packet_of : Bytes → Packet
packet_of plain = record {
  prefix = replicate 4 0;
  fields = replicate 5 0;
  nonce = 1 ∷ 2 ∷ 3 ∷ 4 ∷ [];
  plain = plain;
  hmac = replicate 32 0xee;
}

packet_of-IsPacket : (plain : Bytes) → IsPacket (packet_of plain)
packet_of-IsPacket plain = record {
  prefix = refl;
  fields = refl;
  nonce = refl;
  nonce_bytes = (omega arith, (omega arith, (omega arith, (omega arith, tt))));
  hmac = refl;
}

-- Plaintext before the pack header, the chunk of another channel, the keyframe, and more.
abbrev early : List Sent
early = packet (packet_of (7 ∷ 7 ∷ [])) ∷ other 2 (5 ∷ []) ∷ []

abbrev picture : Packet
picture = packet_of (mpeg_ps_pack ++ (9 ∷ (h264_sps_3b ++ (8 ∷ 8 ∷ []))))

abbrev late : List Sent
late = packet (packet_of (6 ∷ [])) ∷ []

no_keyframe : find_keyframe (plaintexts early) ≡ none
unfolding find_keyframe find is_prefix
no_keyframe = refl

keyframe : find_keyframe (plaintexts early ++ picture.plain) ≡ some 7
unfolding find_keyframe find is_prefix
keyframe = refl

abbrev wire : Bytes
wire = encode_chunks (
    (0, hello_payload doorbell hello 3 5 (replicate 32 1))
    ∷ chunks_of doorbell (replicate 32 1) (early ++ packet picture ∷ late))

pump_segments-chunks_of_example :
    (pump_segments toy (new_decoder 5) (take 50 wire ∷ drop 50 wire ∷ [])).0
    ≡ drop
        (start_of_output (plaintexts early ++ picture.plain) 7)
        (plaintexts (early ++ packet picture ∷ late))
pump_segments-chunks_of_example =
    pump_segments-chunks_of toy doorbell hello 5 3 (replicate 32 1) 0 early picture late 7
      (take 50 wire ∷ drop 50 wire ∷ []) toy-Undoes
      (record { no_mark = (omega arith, (omega arith, tt)); reserved = refl }) refl
      (packet_of-IsPacket (7 ∷ 7 ∷ []), (refl, tt)) (packet_of-IsPacket picture.plain)
      (packet_of-IsPacket (6 ∷ []), tt) no_keyframe (omega arith) keyframe
      (ap (λ r. take 50 wire ++ r) (append-nil (drop 50 wire)) ∙ take-append-drop 50 wire)

started_run : start_of_output (plaintexts early ++ picture.plain) 7 ≡ 2
unfolding start_of_output rfind is_prefix
started_run = refl
