-- ===== src/Entry/Warmup.antt =====
-- custom_components/ezviz_hp7/__init__.py: the refresh of the AES key on a timer, and the requests of the
-- relay for the key. Both ask api.py for the same serial; a round is one refresh and what is asked
-- until the next one.
pub mod Warm
use ezviz_hp.Base.{
  ℕ, zero, suc, ◌+◌, ◌*◌, Bool, true, false, not, ◌&&◌, ◌||◌, Option, none, some, List, [], ◌∷◌,
  length,
}
use ezviz_hp.Base.Bytes.{Bytes}
use ezviz_hp.Cloud.Api.{Api, Answers, fetch_lan_aes_key}

-- `_AES_REFRESH_INTERVAL`
abbrev pub aes_refresh_interval : ℕ
aes_refresh_interval = 12 * 60

is_some : Option Bytes → Bool
is_some none = false
is_some (some key) = true

-- `_refresh_aes`, with whether it got a key: an exception is only logged
unfoldable pub refresh_aes : Bytes → ℕ → Answers → Api → Bool × Api
unfolding is_some
refresh_aes serial now a s =
    let (key, s') = fetch_lan_aes_key serial true now a s in (is_some key, s')

-- `_aes_key_provider`
abbrev pub aes_key_provider : Bytes → ℕ → Answers → Api → Option Bytes × Api
aes_key_provider serial = fetch_lan_aes_key serial false

-- A request for the key: how long after the refresh, and what the cloud would answer.
pub record Ask : Type 0 where
  pub after : ℕ
  pub answers : Answers

pub record Round : Type 0 where
  pub refresh : Answers
  pub asks : List Ask

-- the requests of a round that starts at `t`
unfoldable pub run_asks : Bytes → ℕ → List Ask → Api → Api
run_asks serial t [] s = s
run_asks serial t (x ∷ xs) s =
    run_asks serial t xs (aes_key_provider serial (t + x.after) x.answers s).1

unfoldable pub run_round : Bytes → ℕ → Round → Api → Bool × Api
run_round serial t r s =
    let (ok, s') = refresh_aes serial t r.refresh s in (ok, run_asks serial t r.asks s')

-- the rounds from `t` on
unfoldable pub run_rounds : Bytes → ℕ → List Round → Api → Api
run_rounds serial t [] s = s
run_rounds serial t (r ∷ rs) s =
    run_rounds serial (t + aes_refresh_interval) rs (run_round serial t r s).1

-- no two refreshes in a row fail, `failed` standing for the one before
unfoldable pub is_refreshed : Bytes → ℕ → Bool → List Round → Api → Bool
is_refreshed serial t failed [] s = true
is_refreshed serial t failed (r ∷ rs) s =
    let (ok, s') = run_round serial t r s in
    (ok || not failed) && is_refreshed serial (t + aes_refresh_interval) (not ok) rs s'

-- how often the key is asked for
unfoldable pub count_asks : List Round → ℕ
count_asks [] = 0
count_asks (r ∷ rs) = length r.asks + count_asks rs
