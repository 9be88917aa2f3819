-- ===== src/Relay/Server.antt =====
-- custom_components/ezviz_hp7/tcp_relay.py: the listening socket of the relay. What the event loop
-- makes of `asyncio.start_server`, and when the viewers go, is an argument.
use ezviz_hp.Base.{
  ℕ, Bool, true, false, Option, none, some, List, [], ◌∷◌, ◌++◌, if◌then◌else◌, ◌≡◌, refl,
}
use ezviz_hp.Base.Bytes.{Bytes}
use ezviz_hp.Base.Text.{codes, decimal}
use ezviz_hp.Relay.State.{Relay, Stats, no_task}
use ezviz_hp.Relay.Session.{teardown}
use ezviz_hp.Relay.Session.Step.{Event, run}

-- `_server`, `_port` and `_bind`, with the session
pub record Server : Type 0 where
  pub server : Bool
  pub port : ℕ
  pub bind : Bytes
  pub relay : Relay

-- `ActivityStats`, its counters that the relay moves
abbrev new_stats : Stats
new_stats = record {
  prewarms_triggered = 0;
  prewarms_due_to_motion = 0;
  prewarms_due_to_alarm = 0;
  prewarms_skipped_already_warm = 0;
  lan_sessions_started = 0;
  lan_sessions_failed = 0;
  lan_session_total_bytes = 0;
  lan_session_total_seconds = 0;
  relay_clients_attached = 0;
  relay_clients_attached_warm = 0;
  errors_lan = 0;
  errors_relay_pump = 0;
}

-- `CpdMpegPsRelay.__init__`, at a time of the clock
unfoldable pub new_server : ℕ → Server
new_server now = record {
  server = false;
  port = 0;
  bind = codes "127.0.0.1";
  relay = record {
    lan = none;
    pump = no_task;
    buffer = [];
    writer = none;
    close_at = none;
    keyframe_seen = false;
    session_started_at = 0;
    session_bytes = 0;
    stats = new_stats;
    now = now;
    next_lan = 0;
    open_lans = [];
  };
}

-- `asyncio.start_server`: it raises, or it gives sockets with their ports
pub data Bound : Type 0 where
  refused : Bound
  ports : List ℕ → Bound

listen : Bound → Server → Bool × Server
listen refused s = (false, s)
listen (ports []) s = (false, record s { server = true })
listen (ports (port ∷ others)) s = (true, record s { server = true; port = port })

-- `async_start`: false where it raises
unfoldable pub async_start : Bound → Server → Bool × Server
unfolding listen
async_start bound s = if s.server then (true, s) else listen bound s

-- `async_stop`: whether it ends, and the server. From Python 3.12 on `wait_closed` waits until every
-- connected viewer has gone; `until_closed` is what happens in that time, and `none` where one stays. An
-- exception of it is logged, and the stop goes on.
unfoldable pub async_stop : Option (List Event) → Server → Bool × Server
async_stop until_closed s =
    if s.server
    then elim until_closed [
      | none ↦ (false, s)
      | some es ↦ (true, record s { server = false; port = 0; relay = teardown (run es s.relay) })
    ]
    else (true, s)

-- `url`
unfoldable pub url : Server → Bytes
url s = codes "tcp://" ++ (s.bind ++ (codes ":" ++ decimal s.port))

pub async_start-ports :
    (s : Server) (port : ℕ) (others : List ℕ)
    → s.server ≡ false
    → async_start (ports (port ∷ others)) s ≡ (true, record s { server = true; port = port })
unfolding async_start
async_start-ports s port others down = rw down refl

pub async_stop-closed :
    (es : List Event) (s : Server)
    → s.server ≡ true
    → async_stop (some es) s
      ≡ (true, record s { server = false; port = 0; relay = teardown (run es s.relay) })
unfolding async_stop
async_stop-closed es s up = rw up refl
