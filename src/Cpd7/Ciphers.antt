-- ===== src/Cpd7/Ciphers.antt =====
-- The cryptographic libraries that cpd7 calls (`cryptography`, `Crypto`). They are not part of the
-- repository, so they are a parameter; `none` stands for an exception.
use ezviz_hp.Base.{Option}
use ezviz_hp.Base.Bytes.{Bytes}

pub record Ciphers (Priv Pub : Type 0) : Type 0 where
  -- `serialization.load_der_public_key`
  pub load_der_public_key : Bytes → Option Pub
  -- `priv.exchange(ec.ECDH(), peer)`
  pub exchange : Priv → Pub → Option Bytes
  -- `Cipher(algorithms.AES(key), modes.ECB()).decryptor().update(data)`
  pub aes_ecb_decrypt : Bytes → Bytes → Option Bytes
  -- `ChaCha20.new(key=key, nonce=nonce).decrypt(body)`
  pub chacha20_decrypt : Bytes → Bytes → Bytes → Option Bytes
