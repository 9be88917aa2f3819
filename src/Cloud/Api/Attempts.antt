-- ===== src/Cloud/Api/Attempts.antt =====
-- The two attempts of `fetch_lan_aes_key` in api.py.
use ezviz_hp.Base.{
  ℕ, suc, ◌+◌, Bool, true, false, Option, none, some, length, ◌≡◌, ◌⊎◌, inl, inr, refl,
  if◌then◌else◌, ap, ◌∙◌, sym, arith,
}
use mathlib.Core.Path.{subst}
use ezviz_hp.Base.Bytes.{Bytes}
use ezviz_hp.Base.Table.{put}
use ezviz_hp.Cloud.Api.{
  Api, Setup, Answers, bare_serial, login_and_store_token, login_if_needed, ensure_client,
  refresh_token, count_lookup, is_ascii, keep_key, ask_twice, with_token, ask_cloud, cached_key,
  fetch_lan_aes_key,
}

-- What a fetch comes to that gets a key: it is returned and kept with the time, and so many attempts
-- failed before, with a login after each.
pub record Kept (bare : Bytes) (now : ℕ) (key : Bytes) (retries : ℕ) (s : Api)
    (r : Option Bytes × Api) : Type 0 where
  pub returned : r.0 ≡ some key
  pub cached : r.1.aes_cache ≡ put bare (key, now) s.aes_cache
  pub failures : r.1.errors_cas ≡ s.errors_cas + retries
  pub relogins : r.1.cloud_relogins ≡ s.cloud_relogins + retries
  pub client_kept : r.1.client ≡ s.client

-- A key that `fetch_lan_aes_key` takes.
pub record IsKey (key : Bytes) : Type 0 where
  pub long : length key ≡ 16
  pub ascii : is_ascii key ≡ true

-- How the answers come to a key.
pub data Comes (key : Bytes) (a : Answers) : ℕ → Type 0 where
  at_once : a.first ≡ some key → Comes key a 0
  after_relogin :
      (token : Bytes)
      → a.first ≡ none
      → a.relogin ≡ some token
      → a.second ≡ some key
      → Comes key a 1

module _ (bare : Bytes) (now : ℕ) (key : Bytes) (good : IsKey key) where
  keep_key-good :
      (s : Api)
      → keep_key bare now (some key) s
        ≡ (some key, record s { aes_cache = put bare (key, now) s.aes_cache })
  unfolding keep_key
  keep_key-good s = rw (good.long, good.ascii)

  keep_key-Kept :
      (n : ℕ) (s s' : Api) (r : Option Bytes × Api)
      → r ≡ keep_key bare now (some key) s'
      → s'.aes_cache ≡ s.aes_cache
      → s'.errors_cas ≡ s.errors_cas + n
      → s'.cloud_relogins ≡ s.cloud_relogins + n
      → s'.client ≡ s.client
      → Kept bare now key n s r
  keep_key-Kept n s s' r e c f l k =
      let e' = e ∙ keep_key-good s' in
      record {
        returned = ap (λ r. r.0) e';
        cached = ap (λ r. r.1.aes_cache) e' ∙ ap (put bare (key, now)) c;
        failures = ap (λ r. r.1.errors_cas) e' ∙ f;
        relogins = ap (λ r. r.1.cloud_relogins) e' ∙ l;
        client_kept = ap (λ r. r.1.client) e' ∙ k;
      }

  ask_twice-Kept :
      (n : ℕ) (a : Answers) (s : Api)
      → Comes key a n
      → Kept bare now key n s (ask_twice bare now a s)
  unfolding ask_twice login_and_store_token
  ask_twice-Kept n a s (at_once e) =
      keep_key-Kept 0 s s _ (rw (ask_twice, e)) refl (omega arith) (omega arith) refl
  ask_twice-Kept n a s (after_relogin token e l e') =
      let after = record s {
        token = some token;
        cloud_logins = suc s.cloud_logins;
        errors_cas = suc s.errors_cas;
        cloud_relogins = suc s.cloud_relogins;
      } in
      keep_key-Kept 1 s after _ (rw (ask_twice, e, l, e')) refl (omega arith) (omega arith) refl

  -- The same from a state that differs in nothing that is compared.
  Kept-from :
      (n : ℕ) (s s' : Api) (r : Option Bytes × Api)
      → (s'.aes_cache ≡ s.aes_cache)
        × (s'.errors_cas ≡ s.errors_cas)
        × (s'.cloud_relogins ≡ s.cloud_relogins)
        × (s'.client ≡ s.client)
      → Kept bare now key n s' r
      → Kept bare now key n s r
  Kept-from n s s' r (c, f, l, k) h = record {
    returned = h.returned;
    cached = h.cached ∙ ap (put bare (key, now)) c;
    failures = h.failures ∙ ap (λ m. m + n) f;
    relogins = h.relogins ∙ ap (λ m. m + n) l;
    client_kept = h.client_kept ∙ k;
  }

  with_token-Kept :
      (n : ℕ) (force : Bool) (a : Answers) (s : Api) (o : Option Bytes) (token : Bytes)
      → o ≡ some token
      → Comes key a n
      → Kept bare now key n s (with_token o bare force now a s)
  unfolding with_token count_lookup
  with_token-Kept n force a s none token e h = absurd (cc)
  with_token-Kept n true a s (some t) token e h =
      Kept-from n s _ _ (refl, refl, refl, refl) (ask_twice-Kept n a (count_lookup true s) h)
  with_token-Kept n false a s (some t) token e h =
      Kept-from n s _ _ (refl, refl, refl, refl) (ask_twice-Kept n a (count_lookup false s) h)

  refreshed-Kept :
      (n : ℕ) (force : Bool) (a : Answers) (s : Api) (o : Option Bytes) (token : Bytes)
      → s.token ≡ some token
      → Comes key a n
      → let r = refresh_token o s in Kept bare now key n s (with_token r.token bare force now a r)
  unfolding refresh_token
  refreshed-Kept n force a s none token t h = with_token-Kept n force a s s.token token t h
  refreshed-Kept n force a s (some new) token t h =
      Kept-from n s _ _ (refl, refl, refl, refl)
        (with_token-Kept n force a (record s { token = some new }) (some new) new refl h)

  -- with a client, `ensure_client` does nothing
  ensured : (x : Setup) (s : Api) → s.client ≡ true → ensure_client x s ≡ (true, s)
  unfolding ensure_client
  ensured x s c =
      ap
        (λ b.
          if b
          then (true, s)
          else if x.constructs
          then login_if_needed s.token x.login (record s { client = true })
          else (false, s))
        c

  -- Past the cache, with a client and a token.
  ask_cloud-Kept :
      (n : ℕ) (force : Bool) (a : Answers) (s : Api) (token : Bytes)
      → s.client ≡ true
      → s.token ≡ some token
      → Comes key a n
      → Kept bare now key n s (ask_cloud bare force now a s)
  unfolding ask_cloud
  ask_cloud-Kept n force a s token c t h =
      subst
        (λ (e : Bool × Api).
          let r = refresh_token a.refresh e.1 in
          Kept bare now key n s
            (if e.0 then with_token r.token bare force now a r else (none, e.1)))
        (sym (ensured a.setup s c)) (refreshed-Kept n force a s a.refresh token t h)

-- A fetch past the cache that comes to a key.
pub fetch-Kept :
    (serial : Bytes) (force : Bool) (now n : ℕ) (a : Answers) (s : Api) (key token : Bytes)
    → (force ≡ true) ⊎ (cached_key (bare_serial serial) now s ≡ none)
    → s.client ≡ true
    → s.token ≡ some token
    → IsKey key
    → Comes key a n
    → Kept (bare_serial serial) now key n s (fetch_lan_aes_key serial force now a s)
unfolding fetch_lan_aes_key
fetch-Kept serial true now n a s key token cold c t good h =
    ask_cloud-Kept (bare_serial serial) now key good n true a s token c t h
fetch-Kept serial false now n a s key token (inl e) c t good h = absurd (cc)
fetch-Kept serial false now n a s key token (inr e) c t good h =
    rw (fetch_lan_aes_key, e)
      (ask_cloud-Kept (bare_serial serial) now key good n false a s token c t h)
