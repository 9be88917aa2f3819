-- ===== src/Cloud/Api/Keys.antt =====
-- The cache of AES keys in api.py.
use ezviz_hp.Base.{
  ℕ, suc, ◌+◌, ◌<◌, Bool, true, false, ◌&&◌, Option, none, some, ◌==◌, length, ◌≡◌, ◌⊎◌, inl, inr,
  refl, ap, ◌∙◌, arith,
}
use mathlib.Core.Path.{subst}
use ezviz_hp.Base.Bytes.{Bytes, equal}
use ezviz_hp.Base.Table.{Table, value_at, put, value_at-put, value_at-remove, value_at-remove_other}
use ezviz_hp.Base.Keeps.{keep_test, keep_split}
use ezviz_hp.Cloud.Api.{
  Api, Setup, Answers, bare_serial, login_and_store_token, login_if_needed, ensure_client,
  refresh_token, count_lookup, is_ascii, keep_key, ask_twice, with_token, ask_cloud, cached_key,
  fetch_lan_aes_key, invalidate_aes_cache, aes_key_ttl,
}

-- What a fetch past the cache comes to, `cache` being the one before: a key of 16 bytes, which is
-- kept with the time; or an exception, and the cache as it was.
pub data Fetched (bare : Bytes) (now : ℕ) (cache : Table (Bytes × ℕ)) (r : Option Bytes × Api)
    : Type 0 where
  got :
      (key : Bytes)
      → r.0 ≡ some key
      → length key ≡ 16
      → r.1.aes_cache ≡ put bare (key, now) cache
      → Fetched bare now cache r
  raised : r.0 ≡ none → r.1.aes_cache ≡ cache → Fetched bare now cache r

module _ (bare : Bytes) (now : ℕ) where
  keep_key-Fetched :
      (o : Option Bytes) (s : Api) → Fetched bare now s.aes_cache (keep_key bare now o s)
  unfolding keep_key
  keep_key-Fetched none s = raised refl refl
  keep_key-Fetched (some key) s =
      keep_test (Fetched bare now s.aes_cache) (length key == 16 && is_ascii key) _ _
        (λ e. got key refl (ground arith) refl) (λ e. raised refl refl)

  login-cache : (o : Option Bytes) (s : Api) → (login_and_store_token o s).1.aes_cache ≡ s.aes_cache
  unfolding login_and_store_token
  login-cache none s = refl
  login-cache (some token) s = refl

  need-cache :
      (o answer : Option Bytes) (s : Api) → (login_if_needed o answer s).1.aes_cache ≡ s.aes_cache
  unfolding login_if_needed
  need-cache (some token) answer s = refl
  need-cache none answer s = login-cache answer s

  ensure-cache : (a : Setup) (s : Api) → (ensure_client a s).1.aes_cache ≡ s.aes_cache
  unfolding ensure_client
  ensure-cache a s =
      keep_test (λ (r : Bool × Api). r.1.aes_cache ≡ s.aes_cache) s.client _ _ (λ e. refl)
        (λ e.
          keep_test (λ (r : Bool × Api). r.1.aes_cache ≡ s.aes_cache) a.constructs _ _
            (λ f. need-cache s.token a.login (record s { client = true })) (λ f. refl))

  Fetched-at :
      (c d : Table (Bytes × ℕ)) (r : Option Bytes × Api)
      → c ≡ d
      → Fetched bare now c r
      → Fetched bare now d r
  Fetched-at c d r e h = subst (λ x. Fetched bare now x r) e h

  ask_twice-Fetched :
      (a : Answers) (s : Api) → Fetched bare now s.aes_cache (ask_twice bare now a s)
  unfolding ask_twice
  ask_twice-Fetched a s =
      let failed = record s { errors_cas = suc s.errors_cas } in
      let after = (login_and_store_token a.relogin failed).1 in
      let same = login-cache a.relogin failed in
      keep_split (Fetched bare now s.aes_cache) a.first _ _
        (λ e.
          keep_test (Fetched bare now s.aes_cache) (login_and_store_token a.relogin failed).0 _ _
            (λ ok. Fetched-at _ _ _ same (
              keep_key-Fetched a.second
                (record after { cloud_relogins = suc after.cloud_relogins })))
            (λ bad. raised refl same))
        (λ key e. keep_key-Fetched (some key) s)

  count_lookup-cache : (force : Bool) (s : Api) → (count_lookup force s).aes_cache ≡ s.aes_cache
  unfolding count_lookup
  count_lookup-cache true s = refl
  count_lookup-cache false s = refl

  with_token-Fetched :
      (o : Option Bytes) (force : Bool) (a : Answers) (s : Api)
      → Fetched bare now s.aes_cache (with_token o bare force now a s)
  unfolding with_token
  with_token-Fetched none force a s = raised refl refl
  with_token-Fetched (some token) force a s =
      Fetched-at _ _ _ (count_lookup-cache force s) (ask_twice-Fetched a (count_lookup force s))

  refresh-cache : (o : Option Bytes) (s : Api) → (refresh_token o s).aes_cache ≡ s.aes_cache
  unfolding refresh_token
  refresh-cache none s = refl
  refresh-cache (some token) s = refl

  ask_cloud-Fetched :
      (force : Bool) (a : Answers) (s : Api)
      → Fetched bare now s.aes_cache (ask_cloud bare force now a s)
  unfolding ask_cloud
  ask_cloud-Fetched force a s =
      let s' = (ensure_client a.setup s).1 in
      let r = refresh_token a.refresh s' in
      keep_test (Fetched bare now s.aes_cache) (ensure_client a.setup s).0 _ _
        (λ ok.
          Fetched-at _ _ _ (refresh-cache a.refresh s' ∙ ensure-cache a.setup s)
            (with_token-Fetched r.token force a r))
        (λ bad. raised refl (ensure-cache a.setup s))

-- A call of `fetch_lan_aes_key` either takes the cached key, and moves nothing but the count of hits;
-- or it is past the cache, and returns a key of 16 bytes that is kept with the time, or raises and
-- leaves the cache as it was.
pub fetch_lem :
    (serial : Bytes) (force : Bool) (now : ℕ) (a : Answers) (s : Api)
    → ((key : Bytes) × (force ≡ false)
        × (cached_key (bare_serial serial) now s ≡ some key)
        × (fetch_lan_aes_key serial force now a s
            ≡ (some key, record s { aes_cache_hits = suc s.aes_cache_hits })))
      ⊎ Fetched (bare_serial serial) now s.aes_cache (fetch_lan_aes_key serial force now a s)
unfolding fetch_lan_aes_key
fetch_lem serial true now a s = inr (ask_cloud-Fetched (bare_serial serial) now true a s)
fetch_lem serial false now a s =
    let bare = bare_serial serial in
    keep_split
      (λ r.
        ((key : Bytes) × (false ≡ false)
          × (cached_key bare now s ≡ some key)
          × (r ≡ (some key, record s { aes_cache_hits = suc s.aes_cache_hits })))
        ⊎ Fetched bare now s.aes_cache r)
      (cached_key bare now s) _ _ (λ e. inr (ask_cloud-Fetched bare now false a s))
      (λ key e. inl (key, refl, e, refl))

pub cached_key-put :
    (bare key : Bytes) (at now : ℕ) (s : Api) (cache : Table (Bytes × ℕ))
    → s.aes_cache ≡ put bare (key, at) cache
    → now < at + aes_key_ttl
    → cached_key bare now s ≡ some key
unfolding cached_key
cached_key-put bare key at now s cache e h =
    let found : value_at bare s.aes_cache ≡ some (key, at) =
      ap (value_at bare) e ∙ value_at-put bare (key, at) cache in
    ground (arith, found)

pub fetch_hit :
    (serial : Bytes) (now : ℕ) (a : Answers) (s : Api) (key : Bytes)
    → cached_key (bare_serial serial) now s ≡ some key
    → fetch_lan_aes_key serial false now a s
      ≡ (some key, record s { aes_cache_hits = suc s.aes_cache_hits })
unfolding fetch_lan_aes_key
fetch_hit serial now a s key hit =
    keep_split (λ r. r ≡ (some key, record s { aes_cache_hits = suc s.aes_cache_hits }))
      (cached_key (bare_serial serial) now s) _ _ (λ e. absurd (cc (e, hit)))
      (λ k e.
        let same : k ≡ key = cc (e, hit) in
        ap (λ x. (some x, record s { aes_cache_hits = suc s.aes_cache_hits })) same)

-- A key that was fetched where no young one was cached is returned for half an hour, without the cloud,
-- to every call that does not force, whichever of the forms of the serial is asked for.
pub fetch-fetch :
    (serial again : Bytes) (force : Bool) (at now : ℕ) (a b : Answers) (s : Api) (key : Bytes)
    → cached_key (bare_serial serial) at s ≡ none
    → (fetch_lan_aes_key serial force at a s).0 ≡ some key
    → bare_serial again ≡ bare_serial serial
    → now < at + aes_key_ttl
    → let s' = (fetch_lan_aes_key serial force at a s).1 in
      fetch_lan_aes_key again false now b s'
      ≡ (some key, record s' { aes_cache_hits = suc s'.aes_cache_hits })
fetch-fetch serial again force at now a b s key cold ok same h =
    elim (fetch_lem serial force at a s) [
      | inl (k, f, hit, e) ↦ absurd (cc (cold, hit))
      | inr (raised e c) ↦ absurd (cc (e, ok))
      | inr (got k e l c) ↦
          let eq : k ≡ key = cc (e, ok) in
          let s' = (fetch_lan_aes_key serial force at a s).1 in
          let hit : cached_key (bare_serial again) now s' ≡ some key =
            ap (λ x. cached_key x now s') same
            ∙ cached_key-put (bare_serial serial) k at now s' s.aes_cache c h
            ∙ ap some eq in
          fetch_hit again now b s' key hit
    ]

-- After `invalidate_aes_cache` of a serial its key is not taken from the cache, whatever the time, and
-- the keys of other devices are as before.
pub cached-invalidate :
    (serial other : Bytes) (now : ℕ) (s : Api)
    → (cached_key (bare_serial serial) now (invalidate_aes_cache (some serial) s) ≡ none)
      × (equal (bare_serial serial) other ≡ false
          → cached_key other now (invalidate_aes_cache (some serial) s) ≡ cached_key other now s)
unfolding cached_key invalidate_aes_cache
cached-invalidate serial other now s = (
  rw (cached_key, value_at-remove (bare_serial serial) s.aes_cache),
  λ h. rw (cached_key, value_at-remove_other (bare_serial serial) other s.aes_cache h),
)
