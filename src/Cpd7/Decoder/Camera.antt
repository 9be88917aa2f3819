-- ===== src/Cpd7/Decoder/Camera.antt =====
-- The doorbell's side of the stream that custom_components/ezviz_hp7/cpd7/decoder.py decodes: a handshake
-- with the wrapped key, and packets of cipher text. It is not part of the repository, and the layout is
-- the one that decoder.py reads.
pub mod Handshake
pub mod Open
pub mod Absorb
pub mod Stream
use ezviz_hp.Base.{ℕ, ◌==◌, false, some, List, [], ◌∷◌, ◌++◌, ◌≡◌, ◌≢◌, length, replicate}
use ezviz_hp.Base.Bytes.{Bytes, All, AreBytes}
use ezviz_hp.Cpd7.Ciphers.{Ciphers}

-- The doorbell's key exchange and its ciphers.
pub record Doorbell (Priv Pub : Type 0) : Type 0 where
  pub der : Pub → Bytes
  pub public_of : Priv → Pub
  pub agree : Priv → Pub → Bytes
  pub aes_ecb_encrypt : Bytes → Bytes → Bytes
  pub chacha20_encrypt : Bytes → Bytes → Bytes → Bytes

-- The libraries of the decoder undo what the doorbell does: a public key is read back from its 91
-- bytes, both sides agree on a secret of 32 bytes, AES under such a secret unwraps a key of 32 bytes, and
-- ChaCha20 opens a cipher text of the same key of 32 bytes and nonce of 12. Nothing is asked of other
-- lengths, which the libraries refuse.
pub record Undoes {Priv Pub : Type 0} (c : Ciphers Priv Pub) (m : Doorbell Priv Pub) : Type 0 where
  pub der_length : (p : Pub) → length (m.der p) ≡ 91
  pub loads : (p : Pub) → c.load_der_public_key (m.der p) ≡ some p
  pub agrees : (a b : Priv) → c.exchange a (m.public_of b) ≡ some (m.agree b (m.public_of a))
  pub secret_length : (a : Priv) (p : Pub) → length (m.agree a p) ≡ 32
  pub wrapped_length :
      (shared key : Bytes)
      → length shared ≡ 32
      → length key ≡ 32
      → length (m.aes_ecb_encrypt shared key) ≡ 32
  pub unwraps :
      (shared key : Bytes)
      → length shared ≡ 32
      → length key ≡ 32
      → c.aes_ecb_decrypt shared (m.aes_ecb_encrypt shared key) ≡ some key
  pub opens :
      (key nonce plain : Bytes)
      → length key ≡ 32
      → length nonce ≡ 12
      → c.chacha20_decrypt key nonce (m.chacha20_encrypt key nonce plain) ≡ some plain

-- What the handshake has around the wrapped key and the public key; the length of `extra` is the third
-- byte of the packet.
pub record Hello : Type 0 where
  pub lead : Bytes
  pub reserved : Bytes
  pub extra : Bytes
  pub trailer : Bytes

pub record IsHello (h : Hello) : Type 0 where
  pub no_mark : All (λ x. x ≢ 0x24) h.lead
  pub reserved : length h.reserved ≡ 8

-- A packet of data: the outer prefix, the bytes up to the nonce, the nonce, the plaintext, and the HMAC,
-- which nobody checks.
pub record Packet : Type 0 where
  pub prefix : Bytes
  pub fields : Bytes
  pub nonce : Bytes
  pub plain : Bytes
  pub hmac : Bytes

pub record IsPacket (p : Packet) : Type 0 where
  pub prefix : length p.prefix ≡ 4
  pub fields : length p.fields ≡ 5
  pub nonce : length p.nonce ≡ 4
  pub nonce_bytes : AreBytes p.nonce
  pub hmac : length p.hmac ≡ 32

-- What the doorbell sends after the handshake: a packet of data, or a chunk of another channel.
pub data Sent : Type 0 where
  packet : Packet → Sent
  other : ℕ → Bytes → Sent

abbrev pub IsSent : Sent → Type 0
IsSent (packet p) = IsPacket p
IsSent (other chan payload) = (chan == 1) ≡ false

abbrev pub plaintext_of : Sent → Bytes
plaintext_of (packet p) = p.plain
plaintext_of (other chan payload) = []

abbrev pub plaintexts : List Sent → Bytes
plaintexts [] = []
plaintexts (x ∷ xs) = plaintext_of x ++ plaintexts xs

turned : Bytes → Bytes
turned [] = []
turned (x ∷ xs) = turned xs ++ (x ∷ [])

-- The nonce with which the doorbell encrypts: the bytes that it sends, turned round, and eight zeros.
unfoldable pub cipher_nonce : Bytes → Bytes
unfolding turned
cipher_nonce nonce = turned nonce ++ replicate 8 0

module _ {Priv Pub : Type 0} (m : Doorbell Priv Pub) where
  -- the handshake of a doorbell with its private key, for the holder of a public key
  unfoldable pub hello_payload : Hello → Priv → Pub → Bytes → Bytes
  hello_payload h camera peer key =
      h.lead
      ++ (0x24
          ∷ 0x01
          ∷ length h.extra
          ∷ (h.reserved
              ++ (h.extra
                  ++ (m.aes_ecb_encrypt (m.agree camera peer) key
                      ++ (m.der (m.public_of camera) ++ h.trailer)))))

  unfoldable pub packet_payload : Bytes → Packet → Bytes
  packet_payload key p =
      p.prefix
      ++ (0x24
          ∷ 0x02
          ∷ (p.fields
              ++ (p.nonce ++ (m.chacha20_encrypt key (cipher_nonce p.nonce) p.plain ++ p.hmac))))

  abbrev pub chunk_of : Bytes → Sent → ℕ × Bytes
  chunk_of key (packet p) = (1, packet_payload key p)
  chunk_of key (other chan payload) = (chan, payload)

  abbrev pub chunks_of : Bytes → List Sent → List (ℕ × Bytes)
  chunks_of key [] = []
  chunks_of key (x ∷ xs) = chunk_of key x ∷ chunks_of key xs
