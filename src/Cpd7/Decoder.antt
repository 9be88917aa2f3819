-- ===== src/Cpd7/Decoder.antt =====
-- custom_components/ezviz_hp7/cpd7/decoder.py: the incremental decoder of the play socket.
pub mod Framing
pub mod Segments
pub mod Chunks
pub mod Keeps
pub mod Keyframe
pub mod Gate
pub mod Camera
use ezviz_hp.Base.{
  ℕ, zero, suc, ◌+◌, ◌-◌, ◌*◌, ◌/◌, min, Bool, true, false, not, ◌&&◌, Option, none, some, List, [],
  ◌∷◌, ◌++◌, ltb, leb, ◌==◌, if◌then◌else◌, length, get_or, drop, slice,
}
use ezviz_hp.Base.Options.{◌>>=◌}
use ezviz_hp.Base.Bytes.{Bytes, equal, be16_at}
use ezviz_hp.Base.Search.{is_prefix, find, rfind}
use ezviz_hp.Base
use ezviz_hp.Cpd7.Ciphers.{Ciphers}
use ezviz_hp.Cpd7.Crypto.{transform_nonce}

abbrev pub hmac_trailer_size : ℕ
hmac_trailer_size = 32

abbrev pub mpeg_ps_pack : Bytes
mpeg_ps_pack = 0x00 ∷ 0x00 ∷ 0x01 ∷ 0xba ∷ []

abbrev pub hevc_vps_4b : Bytes
hevc_vps_4b = 0x00 ∷ 0x00 ∷ 0x00 ∷ 0x01 ∷ 0x40 ∷ 0x01 ∷ []

abbrev pub hevc_vps_3b : Bytes
hevc_vps_3b = 0x00 ∷ 0x00 ∷ 0x01 ∷ 0x40 ∷ 0x01 ∷ []

abbrev pub h264_sps_4b : Bytes
h264_sps_4b = 0x00 ∷ 0x00 ∷ 0x00 ∷ 0x01 ∷ 0x67 ∷ []

abbrev pub h264_sps_3b : Bytes
h264_sps_3b = 0x00 ∷ 0x00 ∷ 0x01 ∷ 0x67 ∷ []

abbrev pub max_pack_lookback_before_kf : ℕ
max_pack_lookback_before_kf = 64 * 1024

abbrev pub max_pre_keyframe_buf : ℕ
max_pre_keyframe_buf = 2 * 1024 * 1024

-- `_nonce_12b`
unfoldable pub nonce_12b : Bytes → Bytes
nonce_12b nonce_4b = transform_nonce nonce_4b ++ (0 ∷ 0 ∷ 0 ∷ 0 ∷ 0 ∷ 0 ∷ 0 ∷ 0 ∷ [])

-- the smaller of two results of a search that are not -1
abbrev pub min_found : Option ℕ → Option ℕ → Option ℕ
min_found none b = b
min_found (some i) none = some i
min_found (some i) (some j) = some (min i j)

-- `_find_keyframe`
unfoldable pub find_keyframe : Bytes → Option ℕ
find_keyframe buf =
    min_found (find hevc_vps_4b buf)
      (min_found (find hevc_vps_3b buf) (min_found (find h264_sps_4b buf) (find h264_sps_3b buf)))

-- the choice of `start` in `_absorb_plain`
unfoldable pub start_of_output : Bytes → ℕ → ℕ
start_of_output buf kf_off = elim (rfind mpeg_ps_pack (Base.take kf_off buf)) [
  | none ↦ kf_off
  | some pack_off ↦ if leb (kf_off - pack_off) max_pack_lookback_before_kf then pack_off else kf_off
]

pub record StreamDecoder (Priv : Type 0) : Type 0 where
  pub priv : Priv
  pub buf : Bytes
  pub chacha20_key : Option Bytes
  pub first_chunk_consumed : Bool
  pub first_decrypt_logged : Bool
  pub mpeg_started : Bool
  pub pending : Bytes
  pub out : Bytes

-- `__init__`
abbrev pub new_decoder : {Priv : Type 0} → Priv → StreamDecoder Priv
new_decoder priv = record {
  priv = priv;
  buf = [];
  chacha20_key = none;
  first_chunk_consumed = false;
  first_decrypt_logged = false;
  mpeg_started = false;
  pending = [];
  out = [];
}

-- `take`: the output so far, and the decoder with none
unfoldable pub take : {Priv : Type 0} → StreamDecoder Priv → Bytes × StreamDecoder Priv
take d = (d.out, record d { out = [] })

-- what `_absorb_plain` does with the accumulated plaintext before the stream has started
absorb_pending : {Priv : Type 0} → StreamDecoder Priv → Bytes → Option ℕ → StreamDecoder Priv
absorb_pending d buf (some kf_off) = record d {
  mpeg_started = true;
  out = d.out ++ drop (start_of_output buf kf_off) buf;
  pending = [];
}
absorb_pending d buf none =
    if ltb max_pre_keyframe_buf (length buf)
    then record d { pending = drop (length buf - max_pre_keyframe_buf / 2) buf }
    else record d { pending = buf }

-- `_absorb_plain`
unfoldable pub absorb_plain : {Priv : Type 0} → StreamDecoder Priv → Bytes → StreamDecoder Priv
unfolding absorb_pending
absorb_plain d plain =
    if d.mpeg_started
    then record d { out = d.out ++ plain }
    else absorb_pending d (d.pending ++ plain) (find_keyframe (d.pending ++ plain))

-- the end of `_decrypt_data_chunk`: the flag of the first log line is set on the first plaintext
pub log_first : {Priv : Type 0} → StreamDecoder Priv → Bytes → Bytes × StreamDecoder Priv
log_first d [] = ([], d)
log_first d (x ∷ plain) = (x ∷ plain, record d { first_decrypt_logged = true })

-- `if plain: self._absorb_plain(plain)`
pub absorb_if_any : {Priv : Type 0} → StreamDecoder Priv → Bytes → StreamDecoder Priv
absorb_if_any d [] = d
absorb_if_any d (x ∷ plain) = absorb_plain d (x ∷ plain)

module _ {Priv Pub : Type 0} (c : Ciphers Priv Pub) where
  -- `_derive_keys`; the caller logs an exception and goes on without a key
  unfoldable pub derive_keys : Priv → Bytes → Option Bytes
  derive_keys priv chunk0 = do
    off ← find (0x24 ∷ 0x01 ∷ []) chunk0
    let pkt = drop off chunk0
    if ltb (length pkt) (0x2b + 91) then none else do
      let header_len = get_or pkt 2 0
      let encrypted_key = slice (0x0b + header_len) (0x0b + header_len + 32) pkt
      let peer_pub = slice (0x2b + header_len) (0x2b + header_len + 91) pkt
      peer ← c.load_der_public_key peer_pub
      shared ← c.exchange priv peer
      c.aes_ecb_decrypt shared encrypted_key

  -- the call of ChaCha20 in `_decrypt_data_chunk`, with its handler
  decrypt_body : StreamDecoder Priv → Bytes → Bytes → Bytes × StreamDecoder Priv
  unfolding log_first
  decrypt_body d key pkt =
      elim (c.chacha20_decrypt key (nonce_12b (slice 7 11 pkt))
        (slice 0x0b (length pkt - hmac_trailer_size) pkt)) [
          | none ↦ ([], d)
          | some plain ↦ log_first d plain
        ]

  -- `_decrypt_data_chunk`
  unfoldable pub decrypt_data_chunk : StreamDecoder Priv → Bytes → Bytes × StreamDecoder Priv
  unfolding decrypt_body
  decrypt_data_chunk d chunk = if ltb (length chunk) 4 then ([], d) else elim d.chacha20_key [
    | none ↦ ([], d)
    | some key ↦
        let pkt = drop 4 chunk in
        if not (equal (slice 0 2 pkt) (0x24 ∷ 0x02 ∷ []))
        then ([], d)
        else if ltb (length pkt) (0x0b + hmac_trailer_size)
        then ([], d)
        else decrypt_body d key pkt
  ]

  -- the handshake branch of `_handle_chunk`; a failure of `_derive_keys` leaves no key
  take_handshake : StreamDecoder Priv → Bytes → StreamDecoder Priv
  take_handshake d payload = elim (derive_keys d.priv payload) [
    | none ↦ record d { first_chunk_consumed = true }
    | some key ↦ record d { first_chunk_consumed = true; chacha20_key = some key }
  ]

  -- the data branch of `_handle_chunk`, with a key
  take_data : StreamDecoder Priv → Bytes → StreamDecoder Priv
  unfolding absorb_if_any
  take_data d payload = let (plain, d') = decrypt_data_chunk d payload in absorb_if_any d' plain

  -- `_handle_chunk`
  unfoldable pub handle_chunk : StreamDecoder Priv → ℕ → Bytes → StreamDecoder Priv
  unfolding take_handshake take_data
  handle_chunk d chan payload =
      if not d.first_chunk_consumed
      then take_handshake d payload
      else if not (chan == 0x01)
      then d
      else elim d.chacha20_key [ none ↦ d | some _ ↦ take_data d payload ]

  -- `_consume_one_chunk`; `none` stands for the result False, which changes nothing
  unfoldable pub consume_one_chunk : StreamDecoder Priv → Option (StreamDecoder Priv)
  consume_one_chunk d =
      let total = 4 + be16_at 2 d.buf in
      if ltb (length d.buf) 4
      then none
      else if not (get_or d.buf 0 0 == 0x24)
      then some (record d { buf = drop 1 d.buf })
      else if ltb (length d.buf) total
      then none
      else some (
          handle_chunk (record d { buf = drop total d.buf }) (get_or d.buf 1 0)
            (slice 4 total d.buf))

  -- the loop of `feed`; each round consumes a byte or more, so the length of the buffer bounds them
  unfoldable pub drain : ℕ → StreamDecoder Priv → StreamDecoder Priv
  drain zero d = d
  drain (suc fuel) d = elim (consume_one_chunk d) [ none ↦ d | some d' ↦ drain fuel d' ]

  -- the loop with enough fuel
  unfoldable pub settle : StreamDecoder Priv → StreamDecoder Priv
  settle d = drain (suc (length d.buf)) d

  -- `feed`
  unfoldable pub feed : StreamDecoder Priv → Bytes → StreamDecoder Priv
  feed d [] = d
  feed d (x ∷ bytes) = settle (record d { buf = d.buf ++ x ∷ bytes })
