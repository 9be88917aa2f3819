-- ===== src/Cas/Response.antt =====
-- A packet of cas.py on the wire, and what `_recv_cas_response` reads of it.
use ezviz_hp.Base.{
  suc, false, not, some, [], ◌∷◌, ◌++◌, ◌≡◌, refl, ap, ◌∙◌, arith, length, append_assoc, lt→ltb,
}
use ezviz_hp.Base.Options.{bind-eq-some}
use ezviz_hp.Base.Bytes.{Bytes, equal, equal_refl}
use ezviz_hp.Socket.{Incoming}
use ezviz_hp.Socket.Exact.{stream, IsIncoming, Part, recv_exact-Part}
use ezviz_hp.Cas.{
  CasHeader, Hashes, HasDigests, make_cas_header, build_cas_packet, recv_body, recv_cas_response,
}
use ezviz_hp.Cas.Header.{
  IsHeader, header_bytes, make_cas_header-bytes, length-header_bytes, parse-header_bytes,
  parse-make_cas_header,
}

module _ (k : Hashes) where
  recv_body-Part :
      (body rest : Bytes) (sock : Incoming)
      → IsIncoming sock
      → stream sock ≡ body ++ rest
      → Part body rest (recv_body (length body) sock)
  unfolding recv_body
  recv_body-Part [] rest sock h e = record { left = sock; result = refl; follows = e; incoming = h }
  recv_body-Part (x ∷ body) rest sock h e =
      rw (lt→ltb 0 (suc (length body)) (omega arith))
        (recv_exact-Part (x ∷ body) rest (suc (length body)) sock h e refl)

  -- What comes back for a header, a body and a tail on the wire.
  pub record Received (h : CasHeader) (body tail rest : Bytes) (sock : Incoming) : Type 0 where
    pub left : Incoming
    pub result : recv_cas_response k sock ≡ some (h, body, left, not (equal tail (k.md5 body)))
    pub follows : stream left ≡ rest

  -- However the network cuts a header, its body and any 32 bytes of tail, the header and the body
  -- are returned and the rest stays; the tail decides nothing but the log line.
  recv_cas_response_lem :
      (h : CasHeader) (body tail rest : Bytes) (sock : Incoming)
      → IsHeader h
      → h.body_len ≡ length body
      → length tail ≡ 32
      → IsIncoming sock
      → stream sock ≡ header_bytes h ++ (body ++ (tail ++ rest))
      → Received h body tail rest sock
  unfolding recv_cas_response
  recv_cas_response_lem h body tail rest sock v n t i e =
      let p =
        recv_exact-Part (header_bytes h) (body ++ (tail ++ rest)) 32 sock i e
          (length-header_bytes h) in
      let q = recv_body-Part body (tail ++ rest) p.left p.incoming p.follows in
      let r = recv_exact-Part tail rest 32 q.left q.incoming q.follows t in
      record {
        left = r.left;
        result = rw (p.result, parse-header_bytes h v, n, q.result, r.result);
        follows = r.follows;
      }

  built :
      (h : CasHeader) (body packet : Bytes)
      → build_cas_packet k h body ≡ some packet
      → let h' = record h { body_len = length body } in
        IsHeader h' × (packet ≡ header_bytes h' ++ (body ++ k.md5 body))
  unfolding build_cas_packet
  built h body packet e =
      let h' = record h { body_len = length body } in
      let (header, made, whole) =
        bind-eq-some (make_cas_header h') (λ x. some (x ++ (body ++ k.md5 body))) e in
      let v = (parse-make_cas_header h').1.1 (header, made) in
      let same : header ≡ header_bytes h' = cc (made, make_cas_header-bytes h' v) in
      (v, cc (whole, ap (λ x. x ++ (body ++ k.md5 body)) same))

  -- A packet that `_build_cas_packet` made is received as it was built, however the network cuts
  -- it; its tail matches, and what follows it stays.
  pub recv-build_cas_packet :
      HasDigests k
      → (h : CasHeader) (body packet rest : Bytes) (sock : Incoming)
      → build_cas_packet k h body ≡ some packet
      → IsIncoming sock
      → stream sock ≡ packet ++ rest
      → (left : Incoming) × (recv_cas_response k sock
          ≡ some (record h { body_len = length body }, body, left, false))
        × (stream left ≡ rest)
  recv-build_cas_packet digests h body packet rest sock b i e =
      let h' = record h { body_len = length body } in
      let (v, p) = built h body packet b in
      let e' : stream sock ≡ header_bytes h' ++ (body ++ (k.md5 body ++ rest)) =
        e
        ∙ ap (λ x. x ++ rest) p
        ∙ append_assoc (header_bytes h') (body ++ k.md5 body) rest
        ∙ ap (λ x. header_bytes h' ++ x) (append_assoc body (k.md5 body) rest) in
      let r = recv_cas_response_lem h' body (k.md5 body) rest sock v refl (digests body) i e' in
      (
        r.left,
        r.result ∙ ap (λ b. some (h', body, r.left, not b)) (equal_refl (k.md5 body)),
        r.follows,
      )
