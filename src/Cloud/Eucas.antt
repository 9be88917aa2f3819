-- ===== src/Cloud/Eucas.antt =====
-- custom_components/ezviz_hp7/pylocalapi/cas.py: the object `EzvizCAS`, which asks the server of keys, and
-- the attempts of `fetch_lan_aes_key` in api.py that go through it. TLS is an argument, which gives the
-- bytes of the server at an address, `none` standing for an exception; xmltodict is one too.
pub mod Served
use ezviz_hp.Base.{ℕ, zero, suc, Option, none, some, List, [], ◌∷◌}
use ezviz_hp.Base.Bytes.{Bytes}
use ezviz_hp.Base.Options.{◌>>=◌}
use ezviz_hp.Socket.{Incoming}
use ezviz_hp.Cas.{Hashes}
use ezviz_hp.Cas.Sign.{Claim, Exchange, cas_get_encryption}
use ezviz_hp.Cloud.Api.{Setup, Answers, bare_serial}

-- `_SYSCONF_CAS_HOST_IDX`
abbrev pub sysconf_cas_host_idx : ℕ
sysconf_cas_host_idx = 15

-- `_SYSCONF_CAS_PORT_IDX`
abbrev pub sysconf_cas_port_idx : ℕ
sysconf_cas_port_idx = 16

-- `service_urls`, of which only `sysConf` is read
pub record ServiceUrls : Type 0 where
  pub sys_conf : Option (List Bytes)

-- What cas.py reads of a token.
pub record Token : Type 0 where
  pub session_id : Bytes
  pub service_urls : Option ServiceUrls

-- The attributes of `EzvizCAS`.
pub record EzvizCas : Type 0 where
  pub token : Token
  pub service_urls : ServiceUrls

-- `EzvizCAS.__init__`; `none` stands for the `PyEzvizError`
unfoldable pub new_cas : Option Token → Option EzvizCas
new_cas none = none
new_cas (some t) = do urls ← t.service_urls; some (record { token = t; service_urls = urls })

-- `xs[i]`; `none` stands for the `IndexError`
unfoldable pub get_elem? : List Bytes → ℕ → Option Bytes
get_elem? [] i = none
get_elem? (x ∷ xs) zero = some x
get_elem? (x ∷ xs) (suc i) = get_elem? xs i

-- `_get_cas_host_port`
unfoldable pub get_cas_host_port : EzvizCas → Option (Bytes × Bytes)
get_cas_host_port cas = do
  sys_conf ← cas.service_urls.sys_conf
  host ← get_elem? sys_conf sysconf_cas_host_idx
  port ← get_elem? sys_conf sysconf_cas_port_idx
  some (host, port)

-- What one attempt meets: the token, the random session of its header, and what the server at an
-- address sends.
pub record Trial : Type 0 where
  pub token : Option Token
  pub random : ℕ
  pub network : Bytes → Bytes → Option Incoming

module _ (k : Hashes) (claim : Bytes → Claim) where
  -- the connection of `cas_get_encryption`, if it comes to be
  unfoldable pub ask_server : Bytes → Trial → Option Exchange
  ask_server bare a = do
    cas ← new_cas a.token
    (host, port) ← get_cas_host_port cas
    peer ← a.network host port
    cas_get_encryption k claim a.random cas.token.session_id bare peer

module _ (k : Hashes) (claim : Bytes → Claim) (xml_key : Bytes → Option Bytes) where
  -- `_try_once`; `xml_key` is the key in the document, `[]` where it has none
  unfoldable pub try_once : Bytes → Trial → Option Bytes
  try_once bare a = do e ← ask_server k claim bare a; (hdr, body) ← e.answer; xml_key body

  -- the answers in a call of `fetch_lan_aes_key` that come from two attempts
  unfoldable pub answers : Bytes → Setup → Option Bytes → Option Bytes → Trial → Trial → Answers
  answers serial setup refresh relogin once again = record {
    setup = setup;
    refresh = refresh;
    first = try_once (bare_serial serial) once;
    relogin = relogin;
    second = try_once (bare_serial serial) again;
  }
