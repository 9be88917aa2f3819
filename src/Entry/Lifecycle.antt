-- ===== src/Entry/Lifecycle.antt =====
-- custom_components/ezviz_hp7/__init__.py: setting an entry up and unloading it. What the cloud, the
-- event loop and the host answer is an argument; the token in the data of an entry is the name of the
-- user in it.
pub mod Unload
use ezviz_hp.Base.{
  ℕ, Bool, true, false, not, ◌&&◌, Option, none, some, List, [], ◌∷◌, ◌++◌, if◌then◌else◌,
}
use ezviz_hp.Base.Bytes.{Bytes}
use ezviz_hp.Base.Dict.{Dict}
use ezviz_hp.Base.Table.{Table, value_at, put, remove}
use ezviz_hp.Polling.Values.{Value, null, flag, number, text}
use ezviz_hp.Polling.Coordinator.{Coordinator, Tick, new_coordinator, update_data}
use ezviz_hp.Relay.State.{Relay}
use ezviz_hp.Relay.Session.Step.{Event}
use ezviz_hp.Relay.Server.{Server, Bound, new_server, async_start, async_stop}
use ezviz_hp.Cloud.Api.{Api, Setup, new_api, ensure_client}
use ezviz_hp.Cloud.Api.Related.{Device, get_related_device}
use ezviz_hp.Cloud.Devices.{Call, detect_capabilities, close}
use ezviz_hp.Entities.Select.{current_option}
use ezviz_hp.Entry.Setup.{prepare_entry}

-- An entry: its name, its data without those of the feature code, and its options.
pub record Entry : Type 0 where
  pub entry_id : Bytes
  pub username : Bytes
  pub serial : Bytes
  pub options : Dict Value

-- what `hass.data` keeps for an entry, with the data and the serial that the relay asks for
pub record Runtime : Type 0 where
  pub api : Api
  pub serial : Bytes
  pub coordinator : Coordinator
  pub values : Dict Value
  pub related : Bytes
  pub relay : Option Server
  pub live_view_mode : Value

-- what is registered with `entry.async_on_unload`
pub data Hook : Type 0 where
  update_listener : Hook
  aes_refresh : Hook
  event_prewarm : Hook
  stats_summary : Hook

-- The host: `hass.data`, the data of the entry with its feature code and token, and the hooks.
pub record Host : Type 0 where
  pub entries : Table Runtime
  pub entry_data : Dict Value
  pub hooks : List Hook

-- What is answered in a set-up, each read only where it is asked for.
pub record World : Type 0 where
  pub new_code : Value
  pub login : Setup
  pub infos : Call
  pub tick : Tick
  pub related : Option Device
  pub now : ℕ
  pub bound : Bound
  pub forwards : Bool

pub data Outcome : Type 0 where
  not_ready : Outcome
  raised : Outcome
  ready : Outcome

token_name : Value → Option Bytes
token_name (text name) = some name
token_name _ = none

-- the start of the relay, without which the set-up goes on
start_relay : Bound → ℕ → Option Server
start_relay bound now =
    let (ok, s) = async_start bound (new_server now) in if ok then some s else none

or_serial : Bytes → Option Bytes → Bytes
or_serial serial none = serial
or_serial serial (some related) = related

prewarm_hook : Option Server → List Hook
prewarm_hook none = []
prewarm_hook (some s) = event_prewarm ∷ []

-- the part after the first data: the sub-serial, the relay, `hass.data`, the platforms and the hooks
install : World → Entry → Api → Coordinator → Dict Value → Host → Outcome × Host
unfolding start_relay or_serial prewarm_hook
install w e api coordinator values h =
    let (sub, api') = get_related_device e.serial w.login w.related api in
    let relay = start_relay w.bound w.now in
    let stored = record h {
      entries =
          put e.entry_id
            (record {
              api = api';
              serial = e.serial;
              coordinator = coordinator;
              values = values;
              related = or_serial e.serial sub;
              relay = relay;
              live_view_mode = current_option e.options;
            })
            h.entries;
    } in
    if w.forwards
    then (
      ready,
      record stored {
        hooks = update_listener ∷ aes_refresh ∷ (prewarm_hook relay ++ (stats_summary ∷ h.hooks));
      },
    )
    else (raised, stored)

-- the first refresh
first_refresh : World → Entry → Api → Host → Outcome × Host
unfolding install
first_refresh w e api h =
    let (out, coordinator) = update_data w.tick new_coordinator in
    elim out [
      | none ↦ (not_ready, h)
      | some (values, logged) ↦ install w e api coordinator values h
    ]

-- the login and the detection, with the client
connect_api : World → Api → Bool × Api
connect_api w api =
    let (ok, api') = ensure_client w.login api in
    if ok then detect_capabilities w.login w.infos api' else (false, api')

-- `async_setup_entry`
unfoldable pub async_setup_entry : World → Entry → Host → Outcome × Host
unfolding token_name connect_api first_refresh
async_setup_entry w e h =
    let (entry_data, feature_code, token) = prepare_entry w.new_code h.entry_data in
    let prepared = record h { entry_data = entry_data } in
    let (ok, api) = connect_api w (new_api e.username (token_name token)) in
    if ok then first_refresh w e api prepared else (not_ready, prepared)

-- What unloading an entry leaves of its relay and its client: whether it ends, and whether it succeeds.
pub record Unloaded : Type 0 where
  pub finished : Bool
  pub unload_ok : Bool
  pub relay : Option Server
  pub api : Option Api
  pub host : Host

-- whether the stop of the relay ends, and the relay
stop_relay : Option (List Event) → Option Server → Bool × Option Server
stop_relay until_closed none = (true, none)
stop_relay until_closed (some s) = let (ends, s') = async_stop until_closed s in (ends, some s')

-- The part after the platforms. The client is closed only once the relay has stopped; `logout_fails` tells
-- whether the logout raises what is not caught.
take_down : Option (List Event) → Bool → Option Runtime → Host → Unloaded
unfolding stop_relay
take_down until_closed logout_fails none h = record {
  finished = true;
  unload_ok = true;
  relay = none;
  api = none;
  host = h;
}
take_down until_closed logout_fails (some r) h =
    let (ends, relay) = stop_relay until_closed r.relay in
    record {
      finished = ends;
      unload_ok = ends && not logout_fails;
      relay = relay;
      api = some (if ends then (close logout_fails r.api).1 else r.api);
      host = h;
    }

-- `async_unload_entry`, with the answer of the host for the platforms
unfoldable pub async_unload_entry : Bool → Option (List Event) → Bool → Bytes → Host → Unloaded
unfolding take_down
async_unload_entry unload_ok until_closed logout_fails entry_id h =
    if unload_ok
    then take_down until_closed logout_fails (value_at entry_id h.entries)
        (record h { entries = remove entry_id h.entries })
    else record { finished = true; unload_ok = false; relay = none; api = none; host = h }
