-- ===== src/Cpd7/Crypto.antt =====
-- custom_components/ezviz_hp7/cpd7/crypto.py: ECDH packets and the nonce of a packet.
pub mod Masks
pub mod Packet
pub mod Nonce
use ezviz_hp.Base.{
  ℕ, zero, suc, ◌+◌, ◌-◌, ◌*◌, ◌/◌, ◌^◌, bit_and, bit_or, Bool, true, false, not, ◌&&◌, ◌||◌,
  Option, none, some, List, [], ◌∷◌, ◌++◌, ◌≡◌, refl, ltb, leb, ◌==◌, if◌then◌else◌, length, get_or,
  drop, slice,
}
use ezviz_hp.Base.Bytes.{Bytes, be16_at, pack_le32, unpack_le32}

abbrev pub ecdh_magic : ℕ
ecdh_magic = 0x24

abbrev pub ecdh_type_req : ℕ
ecdh_type_req = 0x01

abbrev pub ecdh_type_data : ℕ
ecdh_type_data = 0x02

abbrev pub header_fixed : ℕ
header_fixed = 0x86

abbrev pub trailer_size : ℕ
trailer_size = 4 + 4 + 32

-- the dictionary that `parse_ecdh_packet` returns; the last two keys are there for a request only
pub record EcdhPacket : Type 0 where
  pub pkt_type : ℕ
  pub header_len : ℕ
  pub payload_len : ℕ
  pub sub_type : ℕ
  pub nonce_raw : Bytes
  pub payload : Bytes
  pub trailer : Bytes
  pub encrypted_key : Option Bytes
  pub peer_pubkey : Option Bytes

-- the dictionary that is built once the packet is accepted
unfoldable pub fields_of : Bytes → EcdhPacket
fields_of bytes =
    let pkt_type = get_or bytes 1 0 in
    let payload_len = be16_at 3 bytes in
    let is_req = pkt_type == ecdh_type_req in
    record {
      pkt_type = pkt_type;
      header_len = get_or bytes 2 0;
      payload_len = payload_len;
      sub_type = get_or bytes 6 0;
      nonce_raw = slice 7 (7 + 4) bytes;
      payload = slice header_fixed (header_fixed + payload_len) bytes;
      trailer =
          slice (header_fixed + payload_len) (header_fixed + payload_len + trailer_size) bytes;
      encrypted_key = if is_req then some (slice 0x0b (0x0b + 32) bytes) else none;
      peer_pubkey = if is_req then some (slice 0x2b (0x2b + 91) bytes) else none;
    }

unfoldable pub parse_ecdh_packet : Bytes → Option EcdhPacket
parse_ecdh_packet bytes =
    if ltb (length bytes) (header_fixed + trailer_size)
    then none
    else if not (get_or bytes 0 0 == ecdh_magic)
    then none
    else if not (get_or bytes 1 0 == ecdh_type_req || get_or bytes 1 0 == ecdh_type_data)
    then none
    else if not (get_or bytes 5 0 == 0x01)
    then none
    else some (fields_of bytes)

-- the first swap of `transform_nonce`: the two bytes of each half
swap16 : ℕ → ℕ
swap16 u = bit_or (bit_and u 0xff00ff00 / 2 ^ 8) (bit_and u 0x00ff00ff * 2 ^ 8)

-- the second swap: the two halves
rol16 : ℕ → ℕ
rol16 u = bit_or (u / 2 ^ 16) (bit_and (bit_and u 0xffff * 2 ^ 16) 0xffffffff)

unfoldable pub transform_nonce : Bytes → Bytes
unfolding swap16 rol16
transform_nonce nonce_raw_4b = pack_le32 (rol16 (swap16 (unpack_le32 nonce_raw_4b)))

unfoldable pub make_nonce_12b : Bytes → Bytes
make_nonce_12b nonce_raw_4b = transform_nonce nonce_raw_4b ++ (0 ∷ 0 ∷ 0 ∷ 0 ∷ 0 ∷ 0 ∷ 0 ∷ 0 ∷ [])

nonce_run : transform_nonce (0xaa ∷ 0xbb ∷ 0xcc ∷ 0xdd ∷ []) ≡ 0xdd ∷ 0xcc ∷ 0xbb ∷ 0xaa ∷ []
unfolding transform_nonce
nonce_run = refl
