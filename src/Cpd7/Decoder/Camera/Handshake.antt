-- ===== src/Cpd7/Decoder/Camera/Handshake.antt =====
-- `_derive_keys` of decoder.py on a handshake of the doorbell.
use ezviz_hp.Base.{
  ℕ, ◌+◌, false, some, [], ◌∷◌, ◌++◌, ltb, ◌≡◌, ◌≢◌, refl, ap, ◌∙◌, arith, length, drop, slice,
  length-append, slice_part, sym, append_assoc, drop-append_exact, get_or,
}
use ezviz_hp.Base.Bytes.{Bytes, All}
use ezviz_hp.Base.Search.{is_prefix, find}
use ezviz_hp.Cpd7.Ciphers.{Ciphers}
use ezviz_hp.Cpd7.Decoder.{derive_keys}
use ezviz_hp.Cpd7.Decoder.Camera.{Doorbell, Undoes, Hello, IsHello, hello_payload}

-- The first `$ 1` behind bytes that are no `$`.
find_mark :
    (lead rest : Bytes)
    → All (λ x. x ≢ 0x24) lead
    → find (0x24 ∷ 0x01 ∷ []) (lead ++ (0x24 ∷ 0x01 ∷ rest)) ≡ some (length lead)
unfolding find is_prefix
find_mark [] rest h = refl
find_mark (x ∷ lead) rest h = ground (arith, find_mark lead rest h.1, h.0)

-- the parts of a packet, behind a header that is longer by `n`
abbrev packet_of : Bytes → Bytes → Bytes → Bytes → Bytes → Bytes
packet_of reserved extra key pub_key trailer =
    0x24 ∷ 0x01 ∷ length extra ∷ (reserved ++ (extra ++ (key ++ (pub_key ++ trailer))))

module _ (reserved extra key pub_key trailer : Bytes) (r : length reserved ≡ 8)
    (k : length key ≡ 32) (p : length pub_key ≡ 91) where
  key_part :
      let n = length extra in
      slice (0x0b + n) (0x0b + n + 32) (packet_of reserved extra key pub_key trailer) ≡ key
  key_part =
      let n = length extra in
      let front = 0x24 ∷ 0x01 ∷ n ∷ (reserved ++ extra) in
      ap (λ x. slice (0x0b + n) (0x0b + n + 32) (0x24 ∷ 0x01 ∷ n ∷ x))
        (sym (append_assoc reserved extra (key ++ (pub_key ++ trailer))))
      ∙ slice_part (0x0b + n) 32 front key (pub_key ++ trailer)
          (omega (arith, length-append reserved extra, r)) k

  pub_key_part :
      let n = length extra in
      slice (0x2b + n) (0x2b + n + 91) (packet_of reserved extra key pub_key trailer) ≡ pub_key
  pub_key_part =
      let n = length extra in
      let front = 0x24 ∷ 0x01 ∷ n ∷ ((reserved ++ extra) ++ key) in
      ap (λ x. slice (0x2b + n) (0x2b + n + 91) (0x24 ∷ 0x01 ∷ n ∷ x))
        (sym (append_assoc reserved extra (key ++ (pub_key ++ trailer)))
          ∙ sym (append_assoc (reserved ++ extra) key (pub_key ++ trailer)))
      ∙ slice_part (0x2b + n) 91 front pub_key trailer
          (omega (arith, length-append (reserved ++ extra) key, length-append reserved extra, r, k))
          p

  long_enough : ltb (length (packet_of reserved extra key pub_key trailer)) (0x2b + 91) ≡ false
  long_enough = ground (
    arith,
    length-append reserved (extra ++ (key ++ (pub_key ++ trailer))),
    length-append extra (key ++ (pub_key ++ trailer)),
    length-append key (pub_key ++ trailer),
    length-append pub_key trailer,
    r,
    k,
    p,
  )

module _ {Priv Pub : Type 0} (c : Ciphers Priv Pub) where
  derive_keys-found :
      (priv : Priv) (chunk pkt key pub_key shared : Bytes) (off n : ℕ) (peer : Pub)
      → find (0x24 ∷ 0x01 ∷ []) chunk ≡ some off
      → drop off chunk ≡ pkt
      → ltb (length pkt) (0x2b + 91) ≡ false
      → get_or pkt 2 0 ≡ n
      → slice (0x0b + n) (0x0b + n + 32) pkt ≡ key
      → slice (0x2b + n) (0x2b + n + 91) pkt ≡ pub_key
      → c.load_der_public_key pub_key ≡ some peer
      → c.exchange priv peer ≡ some shared
      → derive_keys c priv chunk ≡ c.aes_ecb_decrypt shared key
  unfolding derive_keys
  derive_keys-found priv chunk pkt key pub_key shared off n peer f d l g k p o x =
      rw (f, d, l, g, k, p, o, x)

  -- The key of a handshake is the one that the doorbell wrapped.
  pub derive_keys-hello :
      (m : Doorbell Priv Pub)
      → Undoes c m
      → (h : Hello) (priv camera : Priv) (key : Bytes) → IsHello h
      → length key ≡ 32
      → derive_keys c priv (hello_payload m h camera (m.public_of priv) key) ≡ some key
  unfolding hello_payload
  derive_keys-hello m u h priv camera key g l =
      let shared = m.agree camera (m.public_of priv) in
      let wrapped = m.aes_ecb_encrypt shared key in
      let der = m.der (m.public_of camera) in
      let s = u.secret_length camera (m.public_of priv) in
      let w = u.wrapped_length shared key s l in
      let d = u.der_length (m.public_of camera) in
      let pkt = packet_of h.reserved h.extra wrapped der h.trailer in
      derive_keys-found priv (h.lead ++ pkt) pkt wrapped der shared (length h.lead) (length h.extra)
        (m.public_of camera) (find_mark h.lead _ g.no_mark)
        (drop-append_exact (length h.lead) h.lead pkt refl)
        (long_enough h.reserved h.extra wrapped der h.trailer g.reserved w d) refl
        (key_part h.reserved h.extra wrapped der h.trailer g.reserved w d)
        (pub_key_part h.reserved h.extra wrapped der h.trailer g.reserved w d)
        (u.loads (m.public_of camera)) (u.agrees priv camera)
      ∙ u.unwraps shared key s l
