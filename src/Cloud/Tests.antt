-- ===== src/Cloud/Tests.antt =====
-- Runs of the cloud wrapper of api.py, and the theorems at them.
mod Polls
mod Eucas
use ezviz_hp.Base.{suc, true, false, none, some, [], ◌∷◌, ◌≡◌, ◌⊎◌, refl, arith, replicate}
use ezviz_hp.Base.Bytes.{Bytes, equal}
use ezviz_hp.Base.Table.{value_at, put}
use ezviz_hp.Polling.Values.{strip, member}
use ezviz_hp.Base.Text.{codes}
use ezviz_hp.Cloud.Api.{
  Api, Setup, Answers, bare_serial, ensure_client, login_and_store_token, keep_key, cached_key,
  fetch_lan_aes_key, invalidate_aes_cache,
}
use ezviz_hp.Cloud.Api.Related.{after_dash, get_related_device}
use ezviz_hp.Cloud.Api.Unlock.{try_unlock, unlock_door, unlock_gate}
use ezviz_hp.Cloud.Api.Keys.{Fetched, fetch_lem, fetch-fetch, cached-invalidate}
use ezviz_hp.Cloud.Api.Locks.{Unlocked, unlock_lem, ensure_after_failed_login}

abbrev fresh : Api
fresh = record {
  username = codes "me";
  client = false;
  token = none;
  aes_cache = [];
  cloud_logins = 0;
  cloud_relogins = 0;
  aes_cache_hits = 0;
  aes_cache_misses = 0;
  aes_force_refreshes = 0;
  aes_invalidations = 0;
  errors_cas = 0;
  model = codes "HP7";
  supports_door = true;
  supports_gate = true;
  warned_image_encryption = [];
}

abbrev works : Setup
works = record { constructs = true; login = some (codes "me") }

abbrev refused : Setup
refused = record { constructs = true; login = none }

abbrev key : Bytes
key = replicate 16 b'k'

-- The first attempt fails, the second gets the key.
abbrev answers : Answers
answers = record {
  setup = works;
  refresh = none;
  first = none;
  relogin = some (codes "me");
  second = some key;
}

no_cached_key : cached_key (bare_serial (codes "A1-C2")) 100 fresh ≡ none
unfolding cached_key bare_serial value_at
no_cached_key = refl

key_fetched : (fetch_lan_aes_key (codes "A1-C2") false 100 answers fresh).0 ≡ some key
unfolding fetch_lan_aes_key cached_key bare_serial value_at put ensure_client login_and_store_token
    keep_key
key_fetched = refl

same_device : bare_serial (codes "A1") ≡ bare_serial (codes "A1-C2")
unfolding bare_serial
same_device = refl

fetch-fetch_example :
    let s' = (fetch_lan_aes_key (codes "A1-C2") false 100 answers fresh).1 in
    fetch_lan_aes_key (codes "A1") false 1500 answers s'
    ≡ (some key, record s' { aes_cache_hits = suc s'.aes_cache_hits })
fetch-fetch_example =
    fetch-fetch (codes "A1-C2") (codes "A1") false 100 1500 answers answers fresh key no_cached_key
      key_fetched same_device (omega arith)

abbrev cached : Api
cached = record fresh { aes_cache = (codes "A1", (key, 90)) ∷ (codes "B2", (key, 95)) ∷ [] }

ensure_after_failed_login_example :
    let s' = (ensure_client refused fresh).1 in
    ((ensure_client refused fresh).0 ≡ false)
    × (ensure_client works s' ≡ (true, s'))
    × (try_unlock (codes "A1") 2 works true s' ≡ (some false, none, s'))
ensure_after_failed_login_example =
    ensure_after_failed_login refused works fresh (codes "A1") 2 true refl refl refl refl

related_run :
    (get_related_device
      (codes "A1")
      works
      (some (record { resource_infos = codes "A1" ∷ [] ∷ []; camera_infos = codes " C2 " ∷ [] }))
      fresh).0
    ≡ some (codes "C2")
unfolding get_related_device after_dash ensure_client login_and_store_token equal strip member
related_run = refl
