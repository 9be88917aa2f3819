-- ===== src/Entry/Tests/Warmup.antt =====
-- Rounds of refreshes of the AES key, and the theorem at them.
use ezviz_hp.Base.{true, none, some, [], ◌∷◌, ◌+◌, ◌≡◌, refl, arith, replicate, List}
use ezviz_hp.Base.Bytes.{equal}
use ezviz_hp.Base.Table.{value_at, put}
use ezviz_hp.Base.Text.{codes}
use ezviz_hp.Cloud.Api.{
  Api, Answers, new_api, bare_serial, ensure_client, login_and_store_token, keep_key, cached_key,
  fetch_lan_aes_key,
}
use ezviz_hp.Entry.Warmup.{
  refresh_aes, Ask, Round, run_asks, run_round, run_rounds, is_refreshed, count_asks,
}
use ezviz_hp.Entry.Warmup.Warm.{rounds_warm}

abbrev fresh : Api
fresh = new_api (codes "me") none

abbrev answering : Answers
answering = record {
  setup = record { constructs = true; login = some (codes "me") };
  refresh = none;
  first = some (replicate 16 b'k');
  relogin = none;
  second = none;
}

-- The cloud is away.
abbrev away : Answers
away = record {
  setup = record { constructs = true; login = none };
  refresh = none;
  first = none;
  relogin = none;
  second = none;
}

abbrev ask : Ask
ask = record { after = 600; answers = away }

-- The second refresh fails.
abbrev rounds : List Round
rounds =
    record { refresh = answering; asks = ask ∷ [] }
    ∷ record { refresh = away; asks = ask ∷ ask ∷ [] }
    ∷ record { refresh = answering; asks = [] }
    ∷ []

refreshed : is_refreshed (codes "A1-C2") 100 true rounds fresh ≡ true
unfolding is_refreshed run_round run_asks refresh_aes fetch_lan_aes_key cached_key bare_serial
    value_at put ensure_client login_and_store_token keep_key new_api equal
refreshed = refl

rounds_warm_example :
    (run_rounds (codes "A1-C2") 100 rounds fresh).aes_cache_hits
    ≡ fresh.aes_cache_hits + count_asks rounds
rounds_warm_example =
    rounds_warm (codes "A1-C2") 100 rounds fresh
      ((omega arith, tt), ((omega arith, (omega arith, tt)), (tt, tt))) refreshed
