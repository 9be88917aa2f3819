-- ===== src/Cpd7/Tests.antt =====
-- Runs of cpd7 on small inputs, with libraries that a few lines stand for, and the theorems at them.
mod Camera
use ezviz_hp.Base.{ℕ, none, some, List, [], ◌∷◌, ◌++◌, ◌≡◌, inl, refl, arith, length, replicate}
use ezviz_hp.Base.Bytes.{Bytes, equal}
use ezviz_hp.Base.Search.{find, rfind}
use ezviz_hp.Cpd7.Ciphers.{Ciphers}
use ezviz_hp.Cpd7.Crypto.{transform_nonce, parse_ecdh_packet, fields_of}
use ezviz_hp.Cpd7.Crypto.Packet.{Layout, IsLayout, encode, parse-encode, expected}
use ezviz_hp.Cpd7.Decoder.{
  new_decoder, derive_keys, absorb_plain, find_keyframe, start_of_output, decrypt_data_chunk,
  nonce_12b, handle_chunk, consume_one_chunk, drain, settle, feed, take, h264_sps_3b, mpeg_ps_pack,
}
use ezviz_hp.Cpd7.Decoder.Chunks.{
  encode_chunk, encode_chunks, handle_chunks, feed-encode_chunks, feed_after_failed_handshake,
}
use ezviz_hp.Cpd7.Decoder.Gate.{GateInv, feed-GateInv}
use ezviz_hp.Cpd7.Decoder.Segments.{pump_segments, concat, pump_segments-take}

-- Keys are numbers, and the ciphers return their input.
abbrev toy : Ciphers ℕ ℕ
toy = record {
  load_der_public_key = λ der. some (length der);
  exchange = λ priv peer. some (priv ∷ peer ∷ []);
  aes_ecb_decrypt = λ key bytes. some (key ++ bytes);
  chacha20_decrypt = λ key nonce body. some body;
}

abbrev handshake : Bytes
handshake = 0x49 ∷ 0x4d ∷ 0x24 ∷ 0x01 ∷ replicate 140 0

-- An outer prefix, the inner header with a nonce, a body, and the HMAC.
abbrev data_payload : Bytes → Bytes
data_payload body =
    (0 ∷ 0 ∷ 0 ∷ 0 ∷ 0x24 ∷ 0x02 ∷ 0 ∷ 0 ∷ 0 ∷ 0x01 ∷ 0 ∷ 1 ∷ 2 ∷ 3 ∷ 4 ∷ [])
    ++ (body ++ replicate 32 0xee)

abbrev picture : Bytes
picture = 7 ∷ (mpeg_ps_pack ++ (9 ∷ (h264_sps_3b ++ (8 ∷ 8 ∷ []))))

abbrev stream : List (ℕ × Bytes)
stream =
    (0, handshake) ∷ (1, data_payload picture) ∷ (2, 5 ∷ []) ∷ (1, data_payload (6 ∷ 6 ∷ [])) ∷ []

-- The handshake is taken, the byte before the pack header is dropped, the chunk of another channel
-- is passed over.
feed_run :
    (feed toy (new_decoder 5) (1 ∷ 2 ∷ encode_chunks stream)).out
    ≡ mpeg_ps_pack ++ (9 ∷ (h264_sps_3b ++ (8 ∷ 8 ∷ 6 ∷ 6 ∷ [])))
unfolding feed settle drain consume_one_chunk handle_chunk derive_keys decrypt_data_chunk nonce_12b
    transform_nonce absorb_plain find_keyframe start_of_output find rfind equal encode_chunk
feed_run = refl

feed-encode_chunks_example :
    feed toy (new_decoder 5) (1 ∷ 2 ∷ encode_chunks stream)
    ≡ handle_chunks toy (new_decoder 5) stream
feed-encode_chunks_example =
    feed-encode_chunks toy (new_decoder 5) (1 ∷ 2 ∷ []) (0, handshake)
      ((1, data_payload picture) ∷ (2, 5 ∷ []) ∷ (1, data_payload (6 ∷ 6 ∷ [])) ∷ []) refl
      (omega arith)

abbrev segments : List Bytes
segments = (1 ∷ 2 ∷ 0x24 ∷ []) ∷ [] ∷ (0 ∷ 0 ∷ []) ∷ (150 ∷ 5 ∷ []) ∷ []

pump_segments-take_example :
    pump_segments toy (new_decoder 5) segments ≡ take (feed toy (new_decoder 5) (concat segments))
pump_segments-take_example = pump_segments-take toy (new_decoder 5) segments

feed-GateInv_example : GateInv (feed toy (new_decoder 5) (encode_chunks stream))
feed-GateInv_example = feed-GateInv toy 5 (encode_chunks stream)

no_marker : derive_keys toy 5 (1 ∷ 2 ∷ 3 ∷ []) ≡ none
unfolding derive_keys find
no_marker = refl

feed_after_failed_handshake_example :
    let d = feed toy (handle_chunk toy (new_decoder 5) 0 (1 ∷ 2 ∷ 3 ∷ [])) (encode_chunks stream) in
    (d.out ≡ []) × (d.pending ≡ []) × (d.chacha20_key ≡ none)
feed_after_failed_handshake_example =
    feed_after_failed_handshake toy 5 0 (1 ∷ 2 ∷ 3 ∷ []) (encode_chunks stream) no_marker

abbrev request : Layout
request = record {
  pkt_type = 1;
  header_len = 0;
  sub_type = 3;
  nonce = 1 ∷ 2 ∷ 3 ∷ 4 ∷ [];
  key = replicate 32 7;
  pubkey = replicate 91 8;
  payload = 5 ∷ 6 ∷ [];
  trailer = replicate 40 9;
}

abbrev request-IsLayout : IsLayout request
request-IsLayout = record { nonce = refl; key = refl; pubkey = refl; trailer = refl }

parse-encode_example : parse_ecdh_packet (encode request) ≡ some (expected request request-IsLayout)
parse-encode_example = parse-encode request request-IsLayout (inl refl)

-- 174 bytes that announce a payload of 300.
abbrev cut_short : Bytes
cut_short = 0x24 ∷ 0x02 ∷ 0 ∷ 1 ∷ 44 ∷ 0x01 ∷ replicate 168 0

parse_cut_short : parse_ecdh_packet cut_short ≡ some (fields_of cut_short)
unfolding parse_ecdh_packet
parse_cut_short = refl
