-- ===== src/Cpd7/Lan.antt =====
-- custom_components/ezviz_hp7/cpd7/lan_client.py: the packets of the control port, and the client.
pub mod Packet
pub mod Start
mod Tests
use ezviz_hp.Base.{
  ℕ, ◌+◌, ◌-◌, ◌*◌, Bool, not, ◌&&◌, Option, none, some, [], ◌∷◌, ◌++◌, ltb, leb, if◌then◌else◌,
  ◌≡◌, refl, length, take, drop, slice,
}
use ezviz_hp.Base.Options.{◌>>=◌}
use ezviz_hp.Base.Bytes.{Bytes, equal, pack_u32, unpack_be32}
use ezviz_hp.Base.Search.{is_prefix}
use ezviz_hp.Base.Text.{codes, decimal}
use ezviz_hp.Socket.{Incoming, recv_exact}

abbrev pub port_ctrl : ℕ
port_ctrl = 9010

abbrev pub port_play : ℕ
port_play = 9020

abbrev pub cmd_init : ℕ
cmd_init = 0x2013

abbrev pub cmd_invite : ℕ
cmd_invite = 0x2011

abbrev pub cmd_play : ℕ
cmd_play = 0x3105

abbrev pub header_len : ℕ
header_len = 32

abbrev pub md5_trailer_len : ℕ
md5_trailer_len = 32

abbrev pub magic : Bytes
magic = 0x9e ∷ 0xba ∷ 0xac ∷ 0xe9 ∷ []

-- `b"<?xml"`
abbrev pub xml_start : Bytes
xml_start = b'<' ∷ b'?' ∷ b'x' ∷ b'm' ∷ b'l' ∷ []

-- The calls of `hashlib` and `Crypto`, which are not part of the repository: the hexadecimal digest,
-- and `_encrypt` and `_decrypt` (AES-CBC with the fixed vector and the padding).
pub record Control : Type 0 where
  pub md5 : Bytes → Bytes
  pub encrypt : Bytes → Bytes → Option Bytes
  pub decrypt : Bytes → Bytes → Option Bytes

-- the dictionary beside the plaintext in the result of `_parse_response`
pub record Meta : Type 0 where
  pub seq : ℕ
  pub cmd : ℕ
  pub body_len : ℕ

-- `_recv_response`; `none` stands for a `ConnectionError`
unfoldable pub recv_response : Incoming → Option (Bytes × Incoming)
recv_response sock = do
  (header, after_header) ← recv_exact header_len sock
  let body_len = unpack_be32 (slice 24 28 header)
  (rest, left) ← recv_exact (body_len + md5_trailer_len) after_header
  some (header ++ rest, left)

module _ (k : Control) where
  -- `_build_packet`
  unfoldable pub build_packet : ℕ → ℕ → Bytes → Bytes → Option Bytes
  build_packet seq cmd plaintext_xml key = do
    body ← k.encrypt key plaintext_xml
    seq_bytes ← pack_u32 seq
    cmd_bytes ← pack_u32 cmd
    len_bytes ← pack_u32 (length body)
    some (
        magic
        ++ ((0x01 ∷ 0x00 ∷ 0x00 ∷ 0x00 ∷ [])
            ++ (seq_bytes
                ++ ((0 ∷ 0 ∷ 0 ∷ 0 ∷ [])
                    ++ (cmd_bytes
                        ++ ((0xff ∷ 0xff ∷ 0xff ∷ 0xff ∷ [])
                            ++ (len_bytes ++ ((0 ∷ 0 ∷ 0 ∷ 0 ∷ []) ++ (body ++ k.md5 body)))))))))

  -- the plaintext of `_parse_response`: a body that is no cipher text stays as it is
  plain_of : Bytes → Bytes → Option Bytes
  plain_of key body = if is_prefix xml_start body then some body else k.decrypt key body

  -- `_parse_response`; `struct.unpack` raises where the header is cut short
  unfoldable pub parse_response : Bytes → Bytes → Option (Meta × Bytes)
  unfolding plain_of
  parse_response wire key =
      if not (equal (take 4 wire) magic) then none else if ltb (length wire) 28 then none else do
        let body_len = unpack_be32 (slice 24 28 wire)
        let body = slice header_len (header_len + body_len) wire
        plain ← plain_of key body
        some (
          record {
            seq = unpack_be32 (slice 8 12 wire);
            cmd = unpack_be32 (slice 16 20 wire);
            body_len = body_len;
          },
          plain,
        )

  -- `_send_cmd` on a connection: `accepted` tells whether `sendall` raises
  unfoldable pub send_cmd :
      Bytes → ℕ → ℕ → Bytes → Bool → Incoming → Option (Bytes × Bytes × Incoming)
  send_cmd aes_key seq cmd xml accepted sock = do
    pkt ← build_packet seq cmd xml aes_key
    (resp, left) ← (if accepted then recv_response sock else none)
    (meta, plain) ← parse_response resp aes_key
    some (pkt, plain, left)

-- `_xml_init`
unfoldable pub xml_init : ℕ → Bytes
xml_init session =
    codes
      "<?xml version=\"1.0\" encoding=\"utf-8\"?>\n<Request>\n\t<OperationCode>ABCDEFG</OperationCode>\n\t<Session>"
    ++ (decimal session ++ codes "</Session>\n</Request>\n")

-- `_xml_play`, with the default rate 1 and mode -1
unfoldable pub xml_play : ℕ → Bytes
xml_play session =
    codes "<?xml version=\"1.0\" encoding=\"utf-8\"?>\n<Request>\n\t<Session>"
    ++ (decimal session ++ codes "</Session>\n\t<Rate>1</Rate>\n\t<Mode>-1</Mode>\n</Request>\n")

is_digit : ℕ → Bool
is_digit c = leb b'0' c && leb c b'9'

-- the digits in front, as a number, how many they are, and what follows them
digits_of : ℕ → ℕ → Bytes → ℕ × ℕ × Bytes
unfolding is_digit
digits_of n count [] = (n, count, [])
digits_of n count (c ∷ cs) =
    let more = digits_of (n * 10 + (c - b'0')) (count + 1) cs in
    if is_digit c then more else (n, count, c ∷ cs)

-- the match of `<Session>(\d+)</Session>` at the front of a text
session_here : Bytes → Option ℕ
unfolding digits_of is_prefix
session_here text =
    if is_prefix (codes "<Session>") text
    then (let (n, count, rest) = digits_of 0 0 (drop 9 text) in
        if ltb 0 count && is_prefix (codes "</Session>") rest then some n else none)
    else none

-- `re.search(rb"<Session>(\d+)</Session>", text)`, as the number of the group
unfoldable pub find_session : Bytes → Option ℕ
unfolding session_here
find_session [] = none
find_session (c ∷ cs) = elim (session_here (c ∷ cs)) [ some n ↦ some n | none ↦ find_session cs ]

session_run : find_session (codes "<a><Session></Session><Session>207</Session>") ≡ some 207
unfolding find_session
session_run = refl
