-- ===== src/Cloud/P2p.antt =====
-- custom_components/ezviz_hp7/api.py: the request that follows a fetched key, which has the cloud let the
-- client reach the ports of the doorbell. Whatever comes of it is only logged.
use ezviz_hp.Base.{ℕ, Option, none, some, List, [], ◌∷◌, ◌++◌, ◌≡◌, refl, sym, ap}
use ezviz_hp.Base.Bytes.{Bytes}
use ezviz_hp.Base.Text.{codes}
use ezviz_hp.Cloud.Eucas.{Token}

-- the arguments of `requests.post`, with the timeout in seconds
pub record Post : Type 0 where
  pub url : Bytes
  pub headers : List (Bytes × Bytes)
  pub data_fields : List (Bytes × Bytes)
  pub timeout : ℕ

post_of : Bytes → Bytes → Option Post
post_of host [] = none
post_of host (c ∷ cs) = some (record {
  url = codes "https://" ++ (host ++ codes "/v3/p2pbusiness/configurations/p2p");
  headers =
      (codes "appId", codes "ys7")
      ∷ (codes "clientType", codes "1")
      ∷ (codes "netType", codes "WIFI")
      ∷ (codes "User-Agent", codes "EZVIZ/CloudClient")
      ∷ [];
  data_fields = (codes "sessionId", c ∷ cs) ∷ [];
  timeout = 8;
})

-- `_invoke_p2p_register`: the request that is sent, if any
unfoldable pub invoke_p2p_register : Bytes → Option Token → Option Post
unfolding post_of
invoke_p2p_register host none = none
invoke_p2p_register host (some t) = post_of host t.session_id

-- the end of `fetch_lan_aes_key` past the cache, with its result: a key is registered for, an exception
-- ends it before
unfoldable pub register_after : Option Bytes → Bytes → Option Token → Option Post
register_after none host token = none
register_after (some key) host token = invoke_p2p_register host token

fields : Option Post → List (Bytes × Bytes)
fields none = []
fields (some p) = p.data_fields

post_of-data :
    (host session_id : Bytes) (p : Post)
    → post_of host session_id ≡ some p
    → p.data_fields ≡ (codes "sessionId", session_id) ∷ []
unfolding post_of fields
post_of-data host [] p e = absurd (cc)
post_of-data host (c ∷ cs) p e = sym (ap fields e)

-- A request is sent only for a key, with a token, and it carries the session of that token.
register_after_lem :
    (r : Option Bytes) (host : Bytes) (token : Option Token) (p : Post)
    → register_after r host token ≡ some p
    → (key : Bytes) × (t : Token) × (r ≡ some key)
      × (token ≡ some t)
      × (p.data_fields ≡ (codes "sessionId", t.session_id) ∷ [])
unfolding register_after invoke_p2p_register post_of
register_after_lem none host token p e = absurd (cc)
register_after_lem (some key) host none p e = absurd (cc)
register_after_lem (some key) host (some t) p e =
    (key, t, refl, refl, post_of-data host t.session_id p e)
