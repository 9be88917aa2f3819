-- ===== src/Relay/State.antt =====
-- custom_components/ezviz_hp7/tcp_relay.py and stats.py: the state of the relay and what its session is
-- started with.
use ezviz_hp.Base.{ℕ, Bool, Option, List}
use ezviz_hp.Base.Bytes.{Bytes}

-- the counters of `ActivityStats` that the relay moves
pub record Stats : Type 0 where
  pub prewarms_triggered : ℕ
  pub prewarms_due_to_motion : ℕ
  pub prewarms_due_to_alarm : ℕ
  pub prewarms_skipped_already_warm : ℕ
  pub lan_sessions_started : ℕ
  pub lan_sessions_failed : ℕ
  pub lan_session_total_bytes : ℕ
  pub lan_session_total_seconds : ℕ
  pub relay_clients_attached : ℕ
  pub relay_clients_attached_warm : ℕ
  pub errors_lan : ℕ
  pub errors_relay_pump : ℕ

-- `_pump_task`
pub data Pump : Type 0 where
  no_task : Pump
  alive : Pump
  finished : Pump

-- The attributes of the relay, the clock, and the LAN sessions that were started and whose client the code
-- has not closed; a client that nothing refers to any more is collected by the interpreter, with its
-- socket, which is not followed here. A session is named by a number, the next one by `next_lan`; so is a
-- viewer.
pub record Relay : Type 0 where
  pub lan : Option ℕ
  pub pump : Pump
  pub buffer : Bytes
  pub writer : Option ℕ
  pub close_at : Option ℕ
  pub keyframe_seen : Bool
  pub session_started_at : ℕ
  pub session_bytes : ℕ
  pub stats : Stats
  pub now : ℕ
  pub next_lan : ℕ
  pub open_lans : List ℕ

-- What the providers, the key fetcher and `Cpd7LanClient.start` answer.
pub record Attempt : Type 0 where
  pub host : Bytes
  pub related : Bytes
  pub aes_key : Option Bytes
  pub starts : Bool

pub data Trigger : Type 0 where
  motion : Trigger
  alarm : Trigger
  manual : Trigger
