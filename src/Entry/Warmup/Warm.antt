-- ===== src/Entry/Warmup/Warm.antt =====
-- How the refresh of the AES key in __init__.py keeps the cache of api.py warm.
use ezviz_hp.Base.{
  ℕ, suc, ◌+◌, ◌≤◌, Bool, true, false, not, ◌&&◌, ◌||◌, Option, some, List, [], ◌∷◌, length, ◌≡◌,
  ◌⊎◌, inl, inr, refl, ap, ◌∙◌, sym, arith,
}
use mathlib.Core.Path.{subst}
use ezviz_hp.Base.Bytes.{Bytes, All}
use ezviz_hp.Base.Table.{Table, put}
use ezviz_hp.Cloud.Api.{Api, Answers, bare_serial, cached_key}
use ezviz_hp.Cloud.Api.Keys.{got, raised, fetch_lem, fetch_hit, cached_key-put}
use ezviz_hp.Cloud.Api.Forced.{forced-hits}
use ezviz_hp.Entry.Warmup.{
  aes_refresh_interval, is_some, refresh_aes, Ask, Round, run_asks, run_round, run_rounds,
  is_refreshed, count_asks,
}

-- A key of the serial is in the cache, fetched at a time.
record Cached (serial : Bytes) (at : ℕ) (s : Api) : Type 0 where
  key : Bytes
  cache : Table (Bytes × ℕ)
  put_at : s.aes_cache ≡ put (bare_serial serial) (key, at) cache

-- a round whose requests come before the next refresh
abbrev pub IsOnTime : Round → Type 0
IsOnTime r = All (λ x. x.after ≤ aes_refresh_interval) r.asks

-- what requests leave that are all served from the cache
record Served (serial : Bytes) (at n : ℕ) (s s' : Api) : Type 0 where
  cached : Cached serial at s'
  hits : s'.aes_cache_hits ≡ s.aes_cache_hits + n

asks-Served :
    (serial : Bytes) (at t : ℕ) (xs : List Ask) (s : Api)
    → Cached serial at s
    → t ≤ at + aes_refresh_interval
    → All (λ x. x.after ≤ aes_refresh_interval) xs
    → Served serial at (length xs) s (run_asks serial t xs s)
unfolding run_asks
asks-Served serial at t [] s c h a = record { cached = c; hits = omega arith }
asks-Served serial at t (x ∷ xs) s c h a =
    let found : cached_key (bare_serial serial) (t + x.after) s ≡ some c.key =
      cached_key-put (bare_serial serial) c.key at (t + x.after) s c.cache c.put_at
        (omega (arith, h, a.0)) in
    let hit = fetch_hit serial (t + x.after) x.answers s c.key found in
    let rest =
      asks-Served serial at t xs (record s { aes_cache_hits = suc s.aes_cache_hits })
        (record { key = c.key; cache = c.cache; put_at = c.put_at }) h a.1 in
    subst
      (λ (r : Option Bytes × Api). Served serial at (suc (length xs)) s (run_asks serial t xs r.1))
      (sym hit) (record { cached = rest.cached; hits = rest.hits ∙ omega arith })

-- a refresh: it gets a key, which is cached, or fails, and the cache is as it was
refresh-cases :
    (serial : Bytes) (t : ℕ) (a : Answers) (s : Api)
    → let r = refresh_aes serial t a s in
      (r.1.aes_cache_hits ≡ s.aes_cache_hits)
      × (((r.0 ≡ true) × Cached serial t r.1) ⊎ ((r.0 ≡ false) × (r.1.aes_cache ≡ s.aes_cache)))
unfolding refresh_aes is_some
refresh-cases serial t a s = (
  forced-hits serial t a s,
  elim (fetch_lem serial true t a s) [
    | inl (k, f, hit, e) ↦ absurd (cc)
    | inr (raised e c) ↦ inr (ap is_some e, c)
    | inr (got k e l c) ↦ inl (ap is_some e, record { key = k; cache = s.aes_cache; put_at = c })
  ],
)

both : (a b : Bool) → (a && b) ≡ true → (a ≡ true) × (b ≡ true)
both true b h = (refl, h)
both false b h = absurd (cc)

-- What holds before a round: the last refresh failed, or it got the key that is cached.
data Before (serial : Bytes) (t : ℕ) (failed : Bool) (s : Api) : Type 0 where
  cold : failed ≡ true → Before serial t failed s
  warm : (at : ℕ) → Cached serial at s → t ≤ at + aes_refresh_interval → Before serial t failed s

rounds-hits :
    (serial : Bytes) (t : ℕ) (failed : Bool) (rs : List Round) (s : Api)
    → Before serial t failed s
    → All IsOnTime rs
    → is_refreshed serial t failed rs s ≡ true
    → (run_rounds serial t rs s).aes_cache_hits ≡ s.aes_cache_hits + count_asks rs
unfolding is_refreshed run_rounds run_round count_asks
rounds-hits serial t failed [] s b o h = omega arith
rounds-hits serial t failed (r ∷ rs) s b o h =
    let (ok, s') = refresh_aes serial t r.refresh s in
    let s'' = run_asks serial t r.asks s' in
    let (may, rest) = both (ok || not failed) _ h in
    let (same, case) = refresh-cases serial t r.refresh s in
    elim case [
      | inl (e, c) ↦
          let a = asks-Served serial t t r.asks s' c (omega arith) o.0 in
          let next =
            rounds-hits serial (t + aes_refresh_interval) (not ok) rs s''
              (warm t a.cached (omega arith)) o.1 rest in
          omega (arith, next, a.hits, same)
      | inr (e, c) ↦ elim b [
        | cold f ↦ absurd (cc (may, e, f))
        | warm at k d ↦
            let a =
              asks-Served serial at t r.asks s'
                (record { key = k.key; cache = k.cache; put_at = c ∙ k.put_at }) d o.0 in
            let next =
              rounds-hits serial (t + aes_refresh_interval) (not ok) rs s'' (cold (ap not e)) o.1
                rest in
            omega (arith, next, a.hits, same)
      ]
    ]

-- The key is refreshed in rounds, and the first refresh gets a key; as long as no two refreshes in a row
-- fail, every request for the key, of which each comes before the next refresh, takes the cached key,
-- whatever the cloud answers otherwise.
pub rounds_warm :
    (serial : Bytes) (t : ℕ) (rs : List Round) (s : Api)
    → All IsOnTime rs
    → is_refreshed serial t true rs s ≡ true
    → (run_rounds serial t rs s).aes_cache_hits ≡ s.aes_cache_hits + count_asks rs
rounds_warm serial t rs s = rounds-hits serial t true rs s (cold refl)
