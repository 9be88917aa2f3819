-- ===== src/Cas/Permanent/Nested.antt =====
-- A packet of cas.py inside the body of another.
use ezviz_hp.Base.{
  ◌+◌, ◌-◌, ◌≤◌, false, some, ◌++◌, ltb, ◌==◌, if◌then◌else◌, length, take, drop, slice, ◌≡◌, refl,
  ap, ◌∙◌, arith, length-append, take-append_exact, drop-append_exact,
}
use ezviz_hp.Base.Bytes.{Bytes}
use ezviz_hp.Cas.{CasHeader, Hashes}
use ezviz_hp.Cas.Header.{IsHeader, header_bytes, length-header_bytes, parse-header_bytes}
use ezviz_hp.Cas.Permanent.{inner_plaintext, unwrap}

-- Behind an XML text of the length that the outer header gives, a packet of 32 bytes of header, its
-- body and 32 bytes or more is unwrapped to its body: decrypted where the flags say so, as it is where
-- they do not, whatever the tail.
unwrap-header_bytes :
    (k : Hashes) (aes_key xml body tail : Bytes) (h : CasHeader)
    → IsHeader h
    → h.body_len ≡ length body
    → 32 ≤ length tail
    → unwrap k aes_key (length xml) (xml ++ (header_bytes h ++ (body ++ tail)))
      ≡ (if h.flags == 0xffffffff then k.aes_decrypt aes_key body else some body)
unfolding unwrap inner_plaintext
unwrap-header_bytes k aes_key xml body tail h v n t =
    let inner = header_bytes h ++ (body ++ tail) in
    let behind : drop (length xml) (xml ++ inner) ≡ inner =
      drop-append_exact (length xml) xml inner refl in
    let long : ltb (length inner) 64 ≡ false = ground (
      arith,
      length-append (header_bytes h) (body ++ tail),
      length-header_bytes h,
      length-append body tail,
      t,
    ) in
    let header : take 32 inner ≡ header_bytes h =
      take-append_exact 32 (header_bytes h) (body ++ tail) (length-header_bytes h) in
    let cut : slice 32 (32 + h.body_len) inner ≡ body =
      ap (take (32 + h.body_len - 32))
        (drop-append_exact 32 (header_bytes h) (body ++ tail) (length-header_bytes h))
      ∙ take-append_exact (32 + h.body_len - 32) body tail (omega (arith, n)) in
    rw (behind, long, header, parse-header_bytes h v, cut)
