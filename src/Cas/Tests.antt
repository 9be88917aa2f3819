-- ===== src/Cas/Tests.antt =====
-- Runs of the packets of cas.py, and the theorems at them.
use ezviz_hp.Base.{
  ◌≤◌, ◌<◌, ◌⊎◌, length, none, false, some, [], ◌∷◌, ◌++◌, ◌≡◌, ◌≢◌, refl, arith, replicate,
}
use ezviz_hp.Base.Bytes.{Bytes}
use ezviz_hp.Socket.{Incoming, recv, recv_loop, recv_exact}
use ezviz_hp.Socket.Exact.{stream, Got, recv_exact_lem}
use ezviz_hp.Cas.{
  CasHeader, Hashes, make_cas_header, parse_cas_header, build_cas_packet, recv_cas_response,
}
use ezviz_hp.Cas.Header.{IsHeader, header_bytes}
use ezviz_hp.Base.Bytes.{equal}
use ezviz_hp.Base.Text.{codes}
use ezviz_hp.Base.Search.{is_prefix}
use ezviz_hp.Cas.Permanent.{
  find_result, find_key, unwrap, outer_body, inner_packet, password_in, query_permanent_password,
}
use ezviz_hp.Cas.Response.{recv-build_cas_packet}
use ezviz_hp.Cas.Sign.{
  Claim, value_of, decode_from, are_ascii, urlsafe_b64decode, extract_sign_from_jwt,
}
use ezviz_hp.Cas.Sign.Base64.{encode}
use ezviz_hp.Cas.Sign.Token.{sign-token}

-- A digest that is always the same, and no cipher.
abbrev toy : Hashes
toy = record {
  md5 = λ body. replicate 32 b'0';
  aes_encrypt = λ key plain. some plain;
  aes_decrypt = λ key cipher. some cipher;
}

abbrev header : CasHeader
header = record { session_id = 7; cmd = 0x2001; flags = 0; body_len = 3; extra = 0xffffffff }

pieces : Incoming
pieces = (1 ∷ 2 ∷ []) ∷ (3 ∷ []) ∷ (4 ∷ 5 ∷ 6 ∷ []) ∷ []

recv_exact_run : recv_exact 4 pieces ≡ some (1 ∷ 2 ∷ 3 ∷ 4 ∷ [], (5 ∷ 6 ∷ []) ∷ [])
unfolding recv_exact recv_loop recv pieces
recv_exact_run = refl

recv_exact_lem_example :
    let sock : Incoming = (1 ∷ 2 ∷ []) ∷ (3 ∷ 4 ∷ 5 ∷ []) ∷ [] in
    ((4 ≤ length (stream sock)) × Got [] 4 sock (recv_exact 4 sock))
    ⊎ ((length (stream sock) < 4) × (recv_exact 4 sock ≡ none))
recv_exact_lem_example = recv_exact_lem 4 ((1 ∷ 2 ∷ []) ∷ (3 ∷ 4 ∷ 5 ∷ []) ∷ []) (omega arith)

abbrev packet : Bytes
packet = header_bytes header ++ (8 ∷ 8 ∷ 8 ∷ []) ++ replicate 32 b'0'

built_packet : build_cas_packet toy header (8 ∷ 8 ∷ 8 ∷ []) ≡ some packet
unfolding build_cas_packet make_cas_header header_bytes
built_packet = refl

recv-build_cas_packet_example :
    (left : Incoming) × (recv_cas_response toy ((packet ++ 5 ∷ []) ∷ [])
      ≡ some (header, 8 ∷ 8 ∷ 8 ∷ [], left, false))
    × (stream left ≡ 5 ∷ [])
unfolding header_bytes
recv-build_cas_packet_example =
    recv-build_cas_packet toy (λ body. refl) header (8 ∷ 8 ∷ 8 ∷ []) packet (5 ∷ [])
      ((packet ++ 5 ∷ []) ∷ []) built_packet (omega arith, tt) refl

header-IsHeader : IsHeader header
header-IsHeader = record {
  session_id = omega arith;
  cmd = omega arith;
  flags = omega arith;
  body_len = omega arith;
  extra = omega arith;
}

abbrev inner : CasHeader
inner = record { session_id = 1; cmd = 0x2846; flags = 0xffffffff; body_len = 43; extra = 0 }

abbrev inner-IsHeader : IsHeader inner
inner-IsHeader = record {
  session_id = omega arith;
  cmd = omega arith;
  flags = omega arith;
  body_len = omega arith;
  extra = omega arith;
}

abbrev permanent : Bytes
permanent = codes "<Result>0</Result><PermanentCode Key=\"pw\"/>"

query_run :
    query_permanent_password toy (replicate 16 1) (
      some (
        record header { extra = 3 },
        codes "<a>" ++ (header_bytes inner ++ (permanent ++ replicate 32 0)),
      ))
    ≡ some (codes "pw")
unfolding query_permanent_password unwrap password_in find_result find_key is_prefix header_bytes
    parse_cas_header equal
query_run = refl

request_run : outer_body toy 7 (codes "s") (codes "A1") (replicate 16 1) (codes "ABC") ≢ none
unfolding outer_body inner_packet make_cas_header
request_run e = cc

sign-token_example :
    extract_sign_from_jwt
      (λ json. Claim.text json)
      (codes "h" ++ (b'.' ∷ (encode (codes "c0de") ++ (b'.' ∷ codes "x"))))
    ≡ some (codes "c0de")
sign-token_example =
    sign-token (λ json. Claim.text json) (codes "h") (codes "c0de") (codes "x") b'c' (codes "0de")
      (refl, tt) (omega arith) refl

decoded_run : urlsafe_b64decode (codes "YzBk!ZQ==") ≡ some (codes "c0de")
unfolding urlsafe_b64decode are_ascii decode_from value_of
decoded_run = refl

unpadded_run : urlsafe_b64decode (codes "YzBkZQ") ≡ none
unfolding urlsafe_b64decode are_ascii decode_from value_of
unpadded_run = refl
