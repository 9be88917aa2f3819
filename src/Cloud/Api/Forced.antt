-- ===== src/Cloud/Api/Forced.antt =====
-- A forced call of `fetch_lan_aes_key` in api.py.
use ezviz_hp.Base.{ℕ, suc, true, Option, none, some, ◌≡◌, refl, ◌∙◌, arith}
use ezviz_hp.Base.Bytes.{Bytes}
use ezviz_hp.Base.Keeps.{keep_test, keep_split}
use ezviz_hp.Cloud.Api.{
  Api, Setup, Answers, bare_serial, login_and_store_token, login_if_needed, ensure_client,
  refresh_token, count_lookup, keep_key, ask_twice, with_token, ask_cloud, fetch_lan_aes_key,
}

module _ (bare : Bytes) (now : ℕ) where
  ensure-hits : (a : Setup) (s : Api) → (ensure_client a s).1.aes_cache_hits ≡ s.aes_cache_hits
  unfolding ensure_client login_if_needed login_and_store_token
  ensure-hits a s = ground arith

  keep-hits :
      (o : Option Bytes) (s : Api) → (keep_key bare now o s).1.aes_cache_hits ≡ s.aes_cache_hits
  unfolding keep_key
  keep-hits none s = refl
  keep-hits (some key) s = ground arith

  login-hits :
      (o : Option Bytes) (s : Api) → (login_and_store_token o s).1.aes_cache_hits ≡ s.aes_cache_hits
  unfolding login_and_store_token
  login-hits none s = refl
  login-hits (some token) s = refl

  twice-hits :
      (a : Answers) (s : Api) → (ask_twice bare now a s).1.aes_cache_hits ≡ s.aes_cache_hits
  unfolding ask_twice
  twice-hits a s =
      let failed = record s { errors_cas = suc s.errors_cas } in
      let after = (login_and_store_token a.relogin failed).1 in
      let same = login-hits a.relogin failed in
      keep_split (λ (r : Option Bytes × Api). r.1.aes_cache_hits ≡ s.aes_cache_hits) a.first _ _
        (λ e.
          keep_test (λ (r : Option Bytes × Api). r.1.aes_cache_hits ≡ s.aes_cache_hits)
            (login_and_store_token a.relogin failed).0 _ _
            (λ ok.
              keep-hits a.second (record after { cloud_relogins = suc after.cloud_relogins })
              ∙ same)
            (λ bad. same))
        (λ key e. keep-hits (some key) s)

  token-hits :
      (o : Option Bytes) (a : Answers) (s : Api)
      → (with_token o bare true now a s).1.aes_cache_hits ≡ s.aes_cache_hits
  unfolding with_token count_lookup
  token-hits none a s = refl
  token-hits (some token) a s =
      twice-hits a (record s { aes_force_refreshes = suc s.aes_force_refreshes })

  refresh-hits :
      (o : Option Bytes) (s : Api) → (refresh_token o s).aes_cache_hits ≡ s.aes_cache_hits
  unfolding refresh_token
  refresh-hits none s = refl
  refresh-hits (some token) s = refl

  cloud-hits :
      (a : Answers) (s : Api) → (ask_cloud bare true now a s).1.aes_cache_hits ≡ s.aes_cache_hits
  unfolding ask_cloud
  cloud-hits a s =
      let s' = (ensure_client a.setup s).1 in
      let r = refresh_token a.refresh s' in
      keep_test (λ (r : Option Bytes × Api). r.1.aes_cache_hits ≡ s.aes_cache_hits)
        (ensure_client a.setup s).0 _ _
        (λ ok. token-hits r.token a r ∙ (refresh-hits a.refresh s' ∙ ensure-hits a.setup s))
        (λ bad. ensure-hits a.setup s)

-- A forced call does not take the cached key.
pub forced-hits :
    (serial : Bytes) (now : ℕ) (a : Answers) (s : Api)
    → (fetch_lan_aes_key serial true now a s).1.aes_cache_hits ≡ s.aes_cache_hits
unfolding fetch_lan_aes_key
forced-hits serial now a s = cloud-hits (bare_serial serial) now a s
