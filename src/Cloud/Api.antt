-- ===== src/Cloud/Api.antt =====
-- custom_components/ezviz_hp7/api.py: the login, the cache of AES keys,
-- and `bare_serial` of helpers.py. The cloud client is not part of the repository: what it answers in
-- a call is an argument, `none` standing for an exception that the code catches. A token that is
-- empty counts as none. Times are whole seconds.
pub mod Keys
pub mod Locks
pub mod Attempts
pub mod Forced
pub mod Related
pub mod Unlock
use ezviz_hp.Base.{
  ℕ, zero, suc, ◌+◌, ◌-◌, ◌*◌, Bool, true, false, not, ◌&&◌, ◌||◌, Option, none, some, List, [],
  ◌∷◌, ltb, ◌==◌, if◌then◌else◌, length,
}
use ezviz_hp.Base.Bytes.{Bytes, equal}
use ezviz_hp.Base.Text.{codes}
use ezviz_hp.Base.Table.{Table, value_at, put, remove}

-- `AES_KEY_TTL`
abbrev pub aes_key_ttl : ℕ
aes_key_ttl = 30 * 60

-- `bare_serial`
unfoldable pub bare_serial : Bytes → Bytes
bare_serial [] = []
bare_serial (c ∷ cs) = let rest = bare_serial cs in if c == b'-' then [] else c ∷ rest

-- The attributes of `Hp7Api` and the counters that it moves: the token is the name of the user in it;
-- of the table of warnings, the serials.
pub record Api : Type 0 where
  pub username : Bytes
  pub client : Bool
  pub token : Option Bytes
  pub aes_cache : Table (Bytes × ℕ)
  pub cloud_logins : ℕ
  pub cloud_relogins : ℕ
  pub aes_cache_hits : ℕ
  pub aes_cache_misses : ℕ
  pub aes_force_refreshes : ℕ
  pub aes_invalidations : ℕ
  pub errors_cas : ℕ
  pub model : Bytes
  pub supports_door : Bool
  pub supports_gate : Bool
  pub warned_image_encryption : List Bytes

-- `Hp7Api.__init__`, with the counters at their start
unfoldable pub new_api : Bytes → Option Bytes → Api
new_api username token = record {
  username = username;
  client = false;
  token = token;
  aes_cache = [];
  cloud_logins = 0;
  cloud_relogins = 0;
  aes_cache_hits = 0;
  aes_cache_misses = 0;
  aes_force_refreshes = 0;
  aes_invalidations = 0;
  errors_cas = 0;
  model = codes "HP7";
  supports_door = true;
  supports_gate = true;
  warned_image_encryption = [];
}

-- `_login_and_store_token`, with the answer of the login
unfoldable pub login_and_store_token : Option Bytes → Api → Bool × Api
login_and_store_token none s = (false, s)
login_and_store_token (some token) s =
    (true, record s { token = some token; cloud_logins = suc s.cloud_logins })

-- whether the client can be made, and the answer of the login that follows
pub record Setup : Type 0 where
  pub constructs : Bool
  pub login : Option Bytes

login_if_needed : Option Bytes → Option Bytes → Api → Bool × Api
login_if_needed (some token) answer s = (true, s)
login_if_needed none answer s = login_and_store_token answer s

-- `ensure_client`: false stands for the `RuntimeError`
unfoldable pub ensure_client : Setup → Api → Bool × Api
unfolding login_if_needed
ensure_client a s =
    if s.client
    then (true, s)
    else if a.constructs
    then login_if_needed s.token a.login (record s { client = true })
    else (false, s)

-- The answers of the cloud in a call of `fetch_lan_aes_key`, each read only where it is asked for.
pub record Answers : Type 0 where
  pub setup : Setup
  pub refresh : Option Bytes
  pub first : Option Bytes
  pub relogin : Option Bytes
  pub second : Option Bytes

-- the refresh of the token, if the client gives one
refresh_token : Option Bytes → Api → Api
refresh_token none s = s
refresh_token (some token) s = record s { token = some token }

count_lookup : Bool → Api → Api
count_lookup true s = record s { aes_force_refreshes = suc s.aes_force_refreshes }
count_lookup false s = record s { aes_cache_misses = suc s.aes_cache_misses }

-- `key_str.encode("ascii")` does not raise
unfoldable pub is_ascii : Bytes → Bool
is_ascii [] = true
is_ascii (c ∷ cs) = ltb c 128 && is_ascii cs

-- the end: the check of the key, and the cache
unfoldable pub keep_key : Bytes → ℕ → Option Bytes → Api → Option Bytes × Api
unfolding is_ascii
keep_key bare now none s = (none, s)
keep_key bare now (some key) s =
    if length key == 16 && is_ascii key
    then (some key, record s { aes_cache = put bare (key, now) s.aes_cache })
    else (none, s)

-- the two attempts, with a login between them
ask_twice : Bytes → ℕ → Answers → Api → Option Bytes × Api
ask_twice bare now a s = elim a.first [
  | some key ↦ keep_key bare now (some key) s
  | none ↦
      let failed = record s { errors_cas = suc s.errors_cas } in
      let (ok, s') = login_and_store_token a.relogin failed in
      if ok
      then keep_key bare now a.second (record s' { cloud_relogins = suc s'.cloud_relogins })
      else (none, record s' { errors_cas = suc s'.errors_cas })
]

-- the part that needs a token
with_token : Option Bytes → Bytes → Bool → ℕ → Answers → Api → Option Bytes × Api
unfolding ask_twice count_lookup
with_token none bare force now a s = (none, s)
with_token (some token) bare force now a s = ask_twice bare now a (count_lookup force s)

-- the part behind the cache
ask_cloud : Bytes → Bool → ℕ → Answers → Api → Option Bytes × Api
unfolding with_token refresh_token
ask_cloud bare force now a s =
    let (ok, s') = ensure_client a.setup s in
    if ok
    then (let r = refresh_token a.refresh s' in with_token r.token bare force now a r)
    else (none, s')

-- the cached key, where it is young enough
unfoldable pub cached_key : Bytes → ℕ → Api → Option Bytes
cached_key bare now s = elim (value_at bare s.aes_cache) [
  | none ↦ none
  | some (key, fetched_at) ↦ if ltb (now - fetched_at) aes_key_ttl then some key else none
]

-- `fetch_lan_aes_key`; `none` stands for an exception
unfoldable pub fetch_lan_aes_key : Bytes → Bool → ℕ → Answers → Api → Option Bytes × Api
unfolding ask_cloud
fetch_lan_aes_key serial force now a s =
    let bare = bare_serial serial in
    if force then ask_cloud bare force now a s else elim (cached_key bare now s) [
      | some key ↦ (some key, record s { aes_cache_hits = suc s.aes_cache_hits })
      | none ↦ ask_cloud bare force now a s
    ]

-- `invalidate_aes_cache`; `none` is for all serials
unfoldable pub invalidate_aes_cache : Option Bytes → Api → Api
invalidate_aes_cache none s = record s {
  aes_invalidations = suc s.aes_invalidations;
  aes_cache = [];
}
invalidate_aes_cache (some serial) s = record s {
  aes_invalidations = suc s.aes_invalidations;
  aes_cache = remove (bare_serial serial) s.aes_cache;
}
