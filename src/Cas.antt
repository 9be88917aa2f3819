-- ===== src/Cas.antt =====
-- custom_components/ezviz_hp7/pylocalapi/cas.py: the packets of the EUCAS protocol.
pub mod Header
pub mod Response
pub mod Permanent
pub mod Sign
mod Tests
use ezviz_hp.Base.{
  ℕ, ◌+◌, ◌*◌, ◌^◌, ◌-◌, ◌%◌, Bool, true, false, not, ◌&&◌, Option, none, some, List, [], ◌∷◌, ◌++◌,
  ltb, ◌==◌, if◌then◌else◌, length, take, drop, slice, ◌≡◌,
}
use ezviz_hp.Base.Options.{◌>>=◌}
use ezviz_hp.Base.Bytes.{Bytes, equal, pack_u32, unpack_be32}
use ezviz_hp.Socket.{Incoming, recv_exact}

abbrev pub cas_magic : Bytes
cas_magic = 0x9e ∷ 0xba ∷ 0xac ∷ 0xe9 ∷ []

abbrev pub cas_version : Bytes
cas_version = 0x01 ∷ 0x00 ∷ 0x00 ∷ 0x00 ∷ []

abbrev pub cas_header_size : ℕ
cas_header_size = 32

abbrev pub cas_tail_size : ℕ
cas_tail_size = 32

-- the dictionary that `_parse_cas_header` returns
pub record CasHeader : Type 0 where
  pub session_id : ℕ
  pub cmd : ℕ
  pub flags : ℕ
  pub body_len : ℕ
  pub extra : ℕ

-- `_make_cas_header`; the random session id of the default is an argument here
unfoldable pub make_cas_header : CasHeader → Option Bytes
make_cas_header h = do
  session ← pack_u32 h.session_id
  cmd ← pack_u32 h.cmd
  flags ← pack_u32 h.flags
  len ← pack_u32 h.body_len
  extra ← pack_u32 h.extra
  some (
      cas_magic
      ++ (cas_version ++ (session ++ ((0 ∷ 0 ∷ 0 ∷ 0 ∷ []) ++ (cmd ++ (flags ++ (len ++ extra)))))))

-- `_parse_cas_header`; `none` stands for a `ValueError`
unfoldable pub parse_cas_header : Bytes → Option CasHeader
parse_cas_header bytes =
    if not (length bytes == cas_header_size)
    then none
    else if not (equal (take 4 bytes) cas_magic)
    then none
    else some (record {
      session_id = unpack_be32 (slice 8 12 bytes);
      cmd = unpack_be32 (slice 16 20 bytes);
      flags = unpack_be32 (slice 20 24 bytes);
      body_len = unpack_be32 (slice 24 28 bytes);
      extra = unpack_be32 (slice 28 32 bytes);
    })

-- `hashlib` and `Crypto` are not part of the repository: `md5` is the ASCII hexadecimal digest of
-- `_make_cas_tail`, the others AES-128-CBC with the fixed vector and the padding, `none` an exception.
pub record Hashes : Type 0 where
  pub md5 : Bytes → Bytes
  pub aes_encrypt : Bytes → Bytes → Option Bytes
  pub aes_decrypt : Bytes → Bytes → Option Bytes

-- A hexadecimal MD5 digest has 32 characters.
abbrev pub HasDigests : Hashes → Type 0
HasDigests k = (body : Bytes) → length (k.md5 body) ≡ 32

-- the body of `_recv_cas_response`, read only where one is announced
recv_body : ℕ → Incoming → Option (Bytes × Incoming)
recv_body n sock = if ltb 0 n then recv_exact n sock else some ([], sock)

module _ (k : Hashes) where
  -- `_build_cas_packet`
  unfoldable pub build_cas_packet : CasHeader → Bytes → Option Bytes
  build_cas_packet h body = do
    header ← make_cas_header (record h { body_len = length body })
    some (header ++ (body ++ k.md5 body))

  -- `_recv_cas_response`: the header, the body, what is left of the connection, and whether the log
  -- reports a tail that does not match; the response is returned all the same
  unfoldable pub recv_cas_response : Incoming → Option (CasHeader × Bytes × Incoming × Bool)
  unfolding recv_body
  recv_cas_response sock = do
    (hdr_bytes, after_header) ← recv_exact cas_header_size sock
    hdr ← parse_cas_header hdr_bytes
    (body, after_body) ← recv_body hdr.body_len after_header
    (tail, left) ← recv_exact cas_tail_size after_body
    some (hdr, body, left, not (equal tail (k.md5 body)))
