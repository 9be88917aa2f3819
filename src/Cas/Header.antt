-- ===== src/Cas/Header.antt =====
-- The header of cas.py, packed and parsed.
use ezviz_hp.Base.{
  ◌<◌, ◌^◌, some, [], ◌∷◌, ◌++◌, ◌≡◌, ◌↔◌, sym, ap, ◌∙◌, refl, arith, length, lt→ltb,
}
use ezviz_hp.Base.Bytes.{Bytes, equal, pack_be32, unpack-pack_be32}
use ezviz_hp.Cas.{CasHeader, cas_magic, cas_version, make_cas_header, parse_cas_header}

-- Every field fits in 32 bits.
pub record IsHeader (h : CasHeader) : Type 0 where
  pub session_id : h.session_id < 2 ^ 32
  pub cmd : h.cmd < 2 ^ 32
  pub flags : h.flags < 2 ^ 32
  pub body_len : h.body_len < 2 ^ 32
  pub extra : h.extra < 2 ^ 32

-- the 32 bytes
unfoldable pub header_bytes : CasHeader → Bytes
header_bytes h =
    cas_magic
    ++ (cas_version
        ++ (pack_be32 h.session_id
            ++ ((0 ∷ 0 ∷ 0 ∷ 0 ∷ [])
                ++ (pack_be32 h.cmd
                    ++ (pack_be32 h.flags ++ (pack_be32 h.body_len ++ pack_be32 h.extra))))))

pub make_cas_header-bytes : (h : CasHeader) → IsHeader h → make_cas_header h ≡ some (header_bytes h)
unfolding make_cas_header header_bytes
make_cas_header-bytes h v = rw (
  lt→ltb _ _ v.session_id,
  lt→ltb _ _ v.cmd,
  lt→ltb _ _ v.flags,
  lt→ltb _ _ v.body_len,
  lt→ltb _ _ v.extra,
)

pub length-header_bytes : (h : CasHeader) → length (header_bytes h) ≡ 32
unfolding header_bytes
length-header_bytes h = refl

pub parse-header_bytes : (h : CasHeader) → IsHeader h → parse_cas_header (header_bytes h) ≡ some h
unfolding parse_cas_header header_bytes equal
parse-header_bytes h v = λ i. some (record {
  session_id = unpack-pack_be32 h.session_id v.session_id i;
  cmd = unpack-pack_be32 h.cmd v.cmd i;
  flags = unpack-pack_be32 h.flags v.flags i;
  body_len = unpack-pack_be32 h.body_len v.body_len i;
  extra = unpack-pack_be32 h.extra v.extra i;
})

made-IsHeader : (h : CasHeader) (bytes : Bytes) → make_cas_header h ≡ some bytes → IsHeader h
unfolding make_cas_header
made-IsHeader h bytes e = record {
  session_id = ground arith;
  cmd = ground arith;
  flags = ground arith;
  body_len = ground arith;
  extra = ground arith;
}

-- Whatever `_make_cas_header` returns has 32 bytes and is parsed to the same five fields; it
-- returns where every field fits in 32 bits, and raises where one does not.
pub parse-make_cas_header :
    (h : CasHeader)
    → ((bytes : Bytes)
        → make_cas_header h ≡ some bytes
        → (length bytes ≡ 32) × (parse_cas_header bytes ≡ some h))
      × (IsHeader h ↔ ((bytes : Bytes) × (make_cas_header h ≡ some bytes)))
parse-make_cas_header h = (
  λ bytes e.
      let v = made-IsHeader h bytes e in
      let same : header_bytes h ≡ bytes = cc (make_cas_header-bytes h v) in
      (
        ap length (sym same) ∙ length-header_bytes h,
        ap parse_cas_header (sym same) ∙ parse-header_bytes h v,
      ),
  (λ v. (header_bytes h, make_cas_header-bytes h v), λ (bytes, e). made-IsHeader h bytes e),
)
