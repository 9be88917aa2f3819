-- ===== src/Cpd7/Lan/Start.antt =====
-- `Cpd7LanClient` of custom_components/ezviz_hp7/cpd7/lan_client.py: the three exchanges of `start`,
-- the reads and the end. A log tells which sockets the code opens and closes; in `start` they are numbered
-- 0 for INIT, 1 for INVITE, 2 for PLAY and 3 for the probe of `_discover_local_ip`.
pub mod Sockets
use ezviz_hp.Base.{
  ℕ, zero, suc, ◌+◌, Bool, true, false, not, ◌&&◌, ◌||◌, Option, none, some, List, [], ◌∷◌, ◌++◌,
  ◌==◌, if◌then◌else◌, length, ◌≡◌, refl,
}
use ezviz_hp.Base.Bytes.{Bytes}
use ezviz_hp.Base.Text.{codes, decimal}
use ezviz_hp.Socket.{Incoming, recv}
use ezviz_hp.Cpd7.Lan.{
  Control, cmd_init, cmd_invite, cmd_play, send_cmd, xml_init, xml_play, find_session,
}

abbrev pub init_session_id : ℕ
init_session_id = 10011

-- What the constructor keeps, and the play socket.
pub record Client : Type 0 where
  pub related : Bytes
  pub channel : ℕ
  pub aes_key : Bytes
  pub rx_port : ℕ
  pub encrypt_stream : Bool
  pub play_sock : Option Incoming
  pub closed : Bool

-- `__init__`, with the default channel, port and encryption; `none` stands for a `ValueError`
unfoldable pub new_client : Bytes → Bytes → Option Client
new_client related aes_key =
    if not (length aes_key == 16)
    then none
    else some (record {
      related = related;
      channel = 1;
      aes_key = aes_key;
      rx_port = 10105;
      encrypt_stream = true;
      play_sock = none;
      closed = false;
    })

public_key : Bytes → Bytes
public_key [] = []
public_key (c ∷ key) = codes "\n\t<PublicKey>" ++ ((c ∷ key) ++ codes "</PublicKey>")

-- `_xml_invite`, with the identifier and the time that it makes up
unfoldable pub xml_invite : Client → Bytes → Bytes → ℕ → Bytes
unfolding public_key
xml_invite c pubkey_b64 uid timestamp =
    codes
      "<?xml version=\"1.0\" encoding=\"utf-8\"?>\n<Request>\n\t<OperationCode>ABCDEFG</OperationCode>\n\t<Channel RelatedDevice=\""
    ++ (c.related
        ++ (codes "\">"
            ++ (decimal c.channel
                ++ (codes "</Channel>\n\t<ReceiverInfo Address=\"\" Port=\""
                    ++ (decimal c.rx_port
                        ++ (codes
                              "\" ServerType=\"1\" StreamType=\"MAIN\" NewStreamType=\"1\" TransProto=\"TCP\" />\n\t<IsEncrypt>"
                            ++ ((if c.encrypt_stream then codes "TRUE" else codes "FALSE")
                                ++ (codes "</IsEncrypt>\n\t<ReceiverInfoEx SessionID=\"\" Port=\""
                                    ++ (decimal c.rx_port
                                        ++ (codes
                                              "\" />\n\t<Authentication Ticket=\"\" BizCode=\"biz=1\" Interval=\"180\" />\n\t<Uuid>"
                                            ++ (uid
                                                ++ (codes "</Uuid>\n\t<Timestamp>"
                                                    ++ (decimal timestamp
                                                        ++ (codes "</Timestamp>"
                                                            ++ (public_key pubkey_b64
                                                            ++ codes "\n</Request>\n")))))))))))))))

-- A connection that the network accepts: whether `sendall` works, and what comes.
pub record Connection : Type 0 where
  pub accepted : Bool
  pub incoming : Incoming

-- What the system answers to the probe: each of its three calls may raise.
pub data Probe : Type 0 where
  no_socket : Probe
  connect_fails : Probe
  name_fails : Probe
  named : Bytes → Probe

-- What the system and the doorbell answer in `start`; `none` stands for an exception.
pub record World : Type 0 where
  pub probe : Probe
  pub pubkey_b64 : Bytes
  pub uid : Bytes
  pub timestamp : ℕ
  pub init : Option Connection
  pub invite : Option Connection
  pub play : Option Connection

pub data Event : Type 0 where
  opened : ℕ → Event
  closed : ℕ → Event

-- `_discover_local_ip`: only what comes after `connect` is in its `try`. `next` goes on with the address.
discover_local_ip : {A : Type 0} → Probe → (Bytes → Option A × List Event) → Option A × List Event
discover_local_ip no_socket next = (none, [])
discover_local_ip connect_fails next = (none, opened 3 ∷ [])
discover_local_ip name_fails next = (none, opened 3 ∷ closed 3 ∷ [])
discover_local_ip (named ip) next = let (r, log) = next ip in (r, opened 3 ∷ closed 3 ∷ log)

-- An exchange whose socket is closed afterwards, whether it raises or not; `next` goes on with the
-- plaintext.
exchange :
    {A : Type 0}
    → ℕ
    → Option Connection
    → (Connection → Option Bytes)
    → (Bytes → Option A × List Event)
    → Option A × List Event
exchange n none talk next = (none, [])
exchange n (some c) talk next = elim (talk c) [
  | none ↦ (none, opened n ∷ closed n ∷ [])
  | some plain ↦ let (r, log) = next plain in (r, opened n ∷ closed n ∷ log)
]

module _ (k : Control) where
  -- the plaintext of `_send_cmd`
  talk : Bytes → ℕ → Bytes → Connection → Option Bytes
  talk key cmd xml c = elim (send_cmd k key 1 cmd xml c.accepted c.incoming) [
    | none ↦ none
    | some (pkt, plain, left) ↦ some plain
  ]

  -- the exchange of PLAY, whose socket stays open
  play : Client → ℕ → Option Connection → Option Client × List Event
  play c session none = (none, [])
  play c session (some conn) =
      elim (send_cmd k c.aes_key 1 cmd_play (xml_play session) conn.accepted conn.incoming) [
        | none ↦ (none, opened 2 ∷ closed 2 ∷ [])
        | some (pkt, plain, left) ↦ (some (record c { play_sock = some left }), opened 2 ∷ [])
      ]

  -- INVITE's answer holds the session, or `start` raises
  invited : Client → World → Bytes → Option Client × List Event
  unfolding play
  invited c w resp_plain = elim (find_session resp_plain) [
    | none ↦ (none, [])
    | some session ↦ play c session w.play
  ]

  -- `start`
  unfoldable pub start : Client → World → Option Client × List Event
  unfolding discover_local_ip exchange talk invited
  start c w = elim c.play_sock [
    | some _ ↦ (none, [])
    | none ↦ discover_local_ip w.probe (λ my_ip.
        exchange 0 w.init (talk c.aes_key cmd_init (xml_init init_session_id)) (λ _.
          exchange 1 w.invite
            (talk c.aes_key cmd_invite (xml_invite c w.pubkey_b64 w.uid w.timestamp))
            (invited c w)))
  ]

-- `read_chunk`: `in_time` tells that `recv` raises neither a timeout nor an error
unfoldable pub read_chunk : Bool → ℕ → Client → Bytes × Client
read_chunk in_time max_bytes c = elim c.play_sock [
  | none ↦ ([], c)
  | some sock ↦
      if c.closed || not in_time
      then ([], c)
      else (let (chunk, left) = recv max_bytes sock in (chunk, record c { play_sock = some left }))
]

-- `close`
unfoldable pub close : Client → Client
close c = record c { closed = true; play_sock = none }
