-- ===== src/Cas/Sign/Request.antt =====
-- The request of cas.py for the key of a device, and its answer.
use ezviz_hp.Base.{ℕ, Bool, true, false, some, ◌++◌, length, ◌≡◌, refl, ap, ◌∙◌}
use ezviz_hp.Base.Bytes.{Bytes}
use ezviz_hp.Base.Options.{◌>>=◌}
use ezviz_hp.Socket.{Incoming}
use ezviz_hp.Socket.Exact.{stream, IsIncoming}
use ezviz_hp.Cas.{CasHeader, Hashes, HasDigests, build_cas_packet, recv_cas_response}
use ezviz_hp.Cas.Response.{recv-build_cas_packet}
use ezviz_hp.Cas.Sign.{
  Claim, Exchange, answer_of, extract_sign_from_jwt, encryption_request, send_and_recv,
  cas_get_encryption,
}

-- the header of the request, before its length is filled in
abbrev pub request_header : ℕ → CasHeader
request_header random = record {
  session_id = random;
  cmd = 0x2001;
  flags = 0;
  body_len = 0;
  extra = 0;
}

module _ (k : Hashes) where
  -- What the server gets: a request for the device, whatever the pieces in which it is read; and
  -- the connection is closed.
  pub record IsRequest (devserial : Bytes) (random : ℕ) (session_id sign : Bytes) (e : Exchange)
      : Type 0 where
    pub closes : e.closed ≡ true
    pub read :
        (sock : Incoming) (after : Bytes)
        → IsIncoming sock
        → stream sock ≡ e.sent ++ after
        → let body = encryption_request session_id sign devserial in
          (left : Incoming) × (recv_cas_response k sock
            ≡ some (record (request_header random) { body_len = length body }, body, left, false))
          × (stream left ≡ after)

  send_and_recv-some :
      (h hdr : CasHeader) (body answer packet : Bytes) (peer left : Incoming) (b : Bool)
      → build_cas_packet k h body ≡ some packet
      → recv_cas_response k peer ≡ some (hdr, answer, left, b)
      → send_and_recv k h body peer
        ≡ record { sent = packet; answer = some (hdr, answer); closed = true }
  unfolding send_and_recv answer_of
  send_and_recv-some h hdr body answer packet peer left b e r = rw (send_and_recv, e, r) refl

  cas_get_encryption-some :
      (claim : Bytes → Claim) (random : ℕ) (session_id devserial sign : Bytes) (peer : Incoming)
      → extract_sign_from_jwt claim session_id ≡ some sign
      → cas_get_encryption k claim random session_id devserial peer
        ≡ some (
            send_and_recv k
              (request_header random)
              (encryption_request session_id sign devserial)
              peer)
  unfolding cas_get_encryption
  cas_get_encryption-some claim random session_id devserial sign peer e =
      ap
        (λ o. o >>= (λ s. some (
          send_and_recv k (request_header random) (encryption_request session_id s devserial)
            peer)))
        e

  -- A request that fits in a packet, to a server that sends a packet: the exchange has the body.
  pub answered_lem :
      HasDigests k
      → (claim : Bytes → Claim) (random : ℕ) (session_id devserial sign : Bytes) (peer : Incoming)
        (h : CasHeader) (request body packet rest : Bytes)
      → extract_sign_from_jwt claim session_id ≡ some sign
      → build_cas_packet k (request_header random) (encryption_request session_id sign devserial)
        ≡ some request
      → build_cas_packet k h body ≡ some packet
      → IsIncoming peer
      → stream peer ≡ packet ++ rest
      → let hdr = record h { body_len = length body } in
        let e : Exchange = record { sent = request; answer = some (hdr, body); closed = true } in
        (cas_get_encryption k claim random session_id devserial peer ≡ some e)
        × IsRequest devserial random session_id sign e
  answered_lem d claim random session_id devserial sign peer h request body packet rest s f a i e =
      let (left, got, follows) = recv-build_cas_packet k d h body packet rest peer a i e in
      let asked = encryption_request session_id sign devserial in
      (
        cas_get_encryption-some claim random session_id devserial sign peer s
            ∙ ap some (
                send_and_recv-some (request_header random) _ asked body request peer left false f
                  got),
        record {
          closes = refl;
          read = λ sock after.
              recv-build_cas_packet k d (request_header random) asked request after sock f;
        },
      )
