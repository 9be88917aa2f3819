-- ===== src/Cloud/Eucas/Served.antt =====
-- A key on its way from the server of keys to the cache of api.py: the request of pylocalapi/cas.py,
-- the packet that answers it, and the attempts of `fetch_lan_aes_key`.
use ezviz_hp.Base.{ℕ, Bool, true, Option, none, some, ◌++◌, ◌≡◌, ◌⊎◌, refl, ap, ◌∙◌}
use ezviz_hp.Base.Bytes.{Bytes}
use ezviz_hp.Base.Options.{◌>>=◌}
use ezviz_hp.Socket.{Incoming}
use ezviz_hp.Socket.Exact.{stream, IsIncoming}
use ezviz_hp.Cas.{CasHeader, Hashes, HasDigests, build_cas_packet}
use ezviz_hp.Cas.Sign.{
  Claim, Exchange, extract_sign_from_jwt, encryption_request, cas_get_encryption,
}
use ezviz_hp.Cas.Sign.Request.{request_header, IsRequest, answered_lem}
use ezviz_hp.Cloud.Api.{Api, Setup, bare_serial, cached_key, fetch_lan_aes_key}
use ezviz_hp.Cloud.Api.Attempts.{Kept, IsKey, Comes, at_once, after_relogin, fetch-Kept}
use ezviz_hp.Cloud.Eucas.{
  ServiceUrls, Token, new_cas, get_cas_host_port, Trial, ask_server, try_once, answers,
}

module _ (k : Hashes) (claim : Bytes → Claim) (xml_key : Bytes → Option Bytes) where
  -- An attempt that the server serves: the token has a sign and names a server that can be reached;
  -- the request fits in a packet; and what the server sends, however the network cuts it, starts
  -- with a packet whose document has the key.
  pub record IsServed (bare key : Bytes) (a : Trial) : Type 0 where
    pub token : Token
    pub urls : ServiceUrls
    pub host : Bytes
    pub port : Bytes
    pub peer : Incoming
    pub sign : Bytes
    pub request : Bytes
    pub header : CasHeader
    pub body : Bytes
    pub packet : Bytes
    pub rest : Bytes
    pub has_token : a.token ≡ some token
    pub has_urls : token.service_urls ≡ some urls
    pub address :
        get_cas_host_port (record { token = token; service_urls = urls }) ≡ some (host, port)
    pub reached : a.network host port ≡ some peer
    pub signed : extract_sign_from_jwt claim token.session_id ≡ some sign
    pub fits :
        build_cas_packet k (request_header a.random) (encryption_request token.session_id sign bare)
        ≡ some request
    pub answered : build_cas_packet k header body ≡ some packet
    pub pieces : IsIncoming peer
    pub sent : stream peer ≡ packet ++ rest
    pub has_key : xml_key body ≡ some key

  ask_server-connected :
      (bare : Bytes) (a : Trial) (t : Token) (urls : ServiceUrls) (host port : Bytes)
      (peer : Incoming)
      → a.token ≡ some t
      → t.service_urls ≡ some urls
      → get_cas_host_port (record { token = t; service_urls = urls }) ≡ some (host, port)
      → a.network host port ≡ some peer
      → ask_server k claim bare a ≡ cas_get_encryption k claim a.random t.session_id bare peer
  unfolding ask_server new_cas get_cas_host_port cas_get_encryption
  ask_server-connected bare a t urls host port peer e u p r =
      rw (ask_server, e, new_cas, u, p, r) refl

  -- The connection of an attempt, and the key that it comes to.
  pub record Got (bare key : Bytes) (a : Trial) : Type 0 where
    pub token : Token
    pub sign : Bytes
    pub made : Exchange
    pub has_token : a.token ≡ some token
    pub signed : extract_sign_from_jwt claim token.session_id ≡ some sign
    pub exchanged : ask_server k claim bare a ≡ some made
    pub asked : IsRequest k bare a.random token.session_id sign made
    pub key_found : try_once k claim xml_key bare a ≡ some key

  IsServed-Got :
      HasDigests k → (bare key : Bytes) (a : Trial) → IsServed bare key a → Got bare key a
  unfolding try_once
  IsServed-Got d bare key a h =
      let (run, asks) =
        answered_lem k d claim a.random h.token.session_id bare h.sign h.peer h.header h.request
          h.body h.packet h.rest h.signed h.fits h.answered h.pieces h.sent in
      let whole =
        ask_server-connected bare a h.token h.urls h.host h.port h.peer h.has_token h.has_urls
          h.address h.reached
        ∙ run in
      record {
        token = h.token;
        sign = h.sign;
        made = _;
        has_token = h.has_token;
        signed = h.signed;
        exchanged = whole;
        asked = asks;
        key_found =
            ap (λ (o : Option Exchange). o >>= (λ e. e.answer >>= (λ r. xml_key r.1))) whole
            ∙ h.has_key;
      }

  -- How a fetch gets its key: at the first attempt, or, if that fails in whatever way and a login
  -- succeeds, at the second.
  pub data Way (bare key : Bytes) (once again : Trial) (relogin : Option Bytes)
      : ℕ → Trial → Type 0 where
    first : IsServed bare key once → Way bare key once again relogin 0 once
    second :
        (user : Bytes)
        → try_once k claim xml_key bare once ≡ none
        → relogin ≡ some user
        → IsServed bare key again
        → Way bare key once again relogin 1 again

  Way-Comes :
      HasDigests k
      → (serial key : Bytes) (setup : Setup) (refresh relogin : Option Bytes)
        (once again served : Trial) (n : ℕ)
      → Way (bare_serial serial) key once again relogin n served
      → Got (bare_serial serial) key served
        × Comes key (answers k claim xml_key serial setup refresh relogin once again) n
  unfolding answers
  Way-Comes d serial key setup refresh relogin once again served n (first h) =
      let g = IsServed-Got d (bare_serial serial) key once h in (g, at_once g.key_found)
  Way-Comes d serial key setup refresh relogin once again served n (second user e l h) =
      let g = IsServed-Got d (bare_serial serial) key again h in
      (g, after_relogin user e l g.key_found)

  -- With a client and a token, where no young key is cached or none is wanted, and digests of 32
  -- characters: the server answers the first request with a packet whose document has a key of 16
  -- ASCII characters, or that attempt fails in whatever way, the login succeeds, and the server
  -- answers the second request so; the network may cut its bytes anyhow. Then the server got a
  -- request for this device, with the sign of the token; the key is returned and cached under the
  -- bare serial; and a failure and a login are counted exactly for the second way.
  pub fetch-answers :
      HasDigests k
      → (serial key user : Bytes) (force : Bool) (now : ℕ) (s : Api) (setup : Setup)
        (refresh relogin : Option Bytes) (once again served : Trial) (n : ℕ)
      → s.client ≡ true
      → s.token ≡ some user
      → (force ≡ true) ⊎ (cached_key (bare_serial serial) now s ≡ none)
      → IsKey key
      → Way (bare_serial serial) key once again relogin n served
      → Got (bare_serial serial) key served
        × Kept (bare_serial serial) now key n s (
            fetch_lan_aes_key serial force now
              (answers k claim xml_key serial setup refresh relogin once again)
              s)
  fetch-answers d serial key user force now s setup refresh relogin once again served n c t cold
        good w =
      let (g, h) = Way-Comes d serial key setup refresh relogin once again served n w in
      (g, fetch-Kept serial force now n _ s key user cold c t good h)
