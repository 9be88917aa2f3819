-- ===== src/Cpd7/Lan/Tests.antt =====
-- Runs of the LAN client on small inputs, and the theorems at them.
use ezviz_hp.Base.{
  true, false, Option, none, some, [], ◌∷◌, ◌++◌, ◌≡◌, refl, sym, arith, length, replicate,
}
use ezviz_hp.Base.Bytes.{Bytes, equal}
use ezviz_hp.Base.Search.{is_prefix}
use ezviz_hp.Base.Text.{codes, decimal}
use ezviz_hp.Socket.{Incoming, recv, recv_loop, recv_exact}
use ezviz_hp.Socket.Exact.{stream}
use ezviz_hp.Cpd7.Lan.{
  Control, xml_start, build_packet, parse_response, recv_response, send_cmd, xml_init, xml_play,
  find_session,
}
use ezviz_hp.Cpd7.Lan.Packet.{recv-build_packet}
use ezviz_hp.Cpd7.Lan.Start.{Client, Connection, World, named, opened, closed, start, xml_invite}
use ezviz_hp.Cpd7.Lan.Start.Sockets.{Started, start-Started}

-- A cipher that returns its input, and a digest of zeros.
abbrev toy : Control
toy = record {
  md5 = λ body. replicate 32 b'0';
  encrypt = λ key plain. some plain;
  decrypt = λ key body. some body;
}

abbrev hello : Bytes
hello = codes "hello"

abbrev packet : Bytes
packet =
    (0x9e ∷ 0xba ∷ 0xac ∷ 0xe9 ∷ 1 ∷ 0 ∷ 0 ∷ 0 ∷ 0 ∷ 0 ∷ 0 ∷ 1 ∷ 0 ∷ 0 ∷ 0 ∷ 0 ∷ [])
    ++ ((0 ∷ 0 ∷ 0x20 ∷ 0x13 ∷ 255 ∷ 255 ∷ 255 ∷ 255 ∷ 0 ∷ 0 ∷ 0 ∷ 5 ∷ 0 ∷ 0 ∷ 0 ∷ 0 ∷ [])
        ++ (hello ++ replicate 32 b'0'))

built : build_packet toy 1 0x2013 hello [] ≡ some packet
unfolding build_packet
built = refl

no_xml : is_prefix xml_start hello ≡ false
unfolding is_prefix
no_xml = refl

recv-build_packet_example :
    (left : Incoming) × (recv_response ((packet ++ 7 ∷ []) ∷ []) ≡ some (packet, left))
    × (stream left ≡ 7 ∷ [])
    × (parse_response toy packet [] ≡ some (record { seq = 1; cmd = 0x2013; body_len = 5 }, hello))
recv-build_packet_example =
    recv-build_packet toy (λ body. refl) (λ key plain body e. sym e) 1 0x2013 hello [] hello packet
      (7 ∷ []) ((packet ++ 7 ∷ []) ∷ []) refl no_xml (omega arith) (omega arith) (omega arith) built
      (omega arith, tt) refl

-- An answer in the clear that names the session 20, and what follows it.
abbrev answer : Bytes
answer = codes "<?xml <Session>20</Session>"

abbrev wire : Bytes
wire =
    (0x9e ∷ 0xba ∷ 0xac ∷ 0xe9 ∷ 1 ∷ 0 ∷ 0 ∷ 0 ∷ 0 ∷ 0 ∷ 0 ∷ 1 ∷ 0 ∷ 0 ∷ 0 ∷ 0 ∷ [])
    ++ ((0
          ∷ 0
          ∷ 0x20
          ∷ 0x11
          ∷ 255
          ∷ 255
          ∷ 255
          ∷ 255
          ∷ 0
          ∷ 0
          ∷ 0
          ∷ length answer
          ∷ 0
          ∷ 0
          ∷ 0
          ∷ 0
          ∷ [])
        ++ (answer ++ replicate 32 b'0'))

abbrev works : Option Connection
works = some (record { accepted = true; incoming = wire ∷ (9 ∷ []) ∷ [] })

abbrev world : World
world = record {
  probe = named (codes "10.0.0.2");
  pubkey_b64 = codes "AA==";
  uid = codes "u";
  timestamp = 5;
  init = works;
  invite = works;
  play = works;
}

abbrev client : Client
client = record {
  related = codes "C2";
  channel = 1;
  aes_key = replicate 16 1;
  rx_port = 10105;
  encrypt_stream = true;
  play_sock = none;
  closed = false;
}

start_run : start toy client world ≡ (
  some (record client { play_sock = some ((9 ∷ []) ∷ []) }),
  opened 3 ∷ closed 3 ∷ opened 0 ∷ closed 0 ∷ opened 1 ∷ closed 1 ∷ opened 2 ∷ [],
)
unfolding start send_cmd build_packet xml_init xml_invite xml_play decimal recv_response recv_exact
    recv_loop recv parse_response equal is_prefix find_session
start_run = refl

start-Started_example : Started world.probe (start toy client world)
start-Started_example = start-Started toy client world
