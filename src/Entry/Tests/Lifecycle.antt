-- ===== src/Entry/Tests/Lifecycle.antt =====
-- Runs of the set-up and the unloading of an entry, and the theorems at them.
use ezviz_hp.Base.{true, false, Option, none, some, List, [], ◌∷◌, ◌≡◌, refl}
use ezviz_hp.Base.Bytes.{equal}
use ezviz_hp.Base.Table.{value_at}
use ezviz_hp.Base.Text.{codes}
use ezviz_hp.Polling.Values.{text}
use ezviz_hp.Polling.Coordinator.{new_coordinator}
use ezviz_hp.Cloud.Api.{new_api}
use ezviz_hp.Cloud.Devices.{infos}
use ezviz_hp.Relay.State.{alive}
use ezviz_hp.Relay.Session.Step.{Event, time_passed, detached}
use ezviz_hp.Relay.Server.{Server, ports, new_server, async_start}
use ezviz_hp.Entry.Lifecycle.{Entry, Runtime, Host, World, async_setup_entry, async_unload_entry}
use ezviz_hp.Entry.Lifecycle.Unload.{
  IsSetUp, async_setup_entry-IsSetUp, IsUnloaded, IsHeld, async_unload_entry-IsUnloaded,
}

abbrev entry : Entry
entry = record {
  entry_id = codes "e1";
  username = codes "me";
  serial = codes "A1-C2";
  options = ("live_view_mode", text (codes "hls")) ∷ [];
}

abbrev host : Host
host = record { entries = []; entry_data = []; hooks = [] }

abbrev world : World
world = record {
  new_code = text (codes "c0de");
  login = record { constructs = true; login = some (codes "me") };
  infos =
      infos
        (record { sub_category = text (codes "CP7"); device_infos = none; resource_infos = [] });
  tick = record { now = 5; alarms = some []; static = some [] };
  related = none;
  now = 5;
  bound = ports (4000 ∷ []);
  forwards = true;
}

async_setup_entry-IsSetUp_example : IsSetUp entry host (async_setup_entry world entry host)
async_setup_entry-IsSetUp_example = async_setup_entry-IsSetUp world entry host

-- A relay that listens, with a LAN session and a viewer.
abbrev busy : Server
busy =
    let s = (async_start (ports (4000 ∷ [])) (new_server 5)).1 in
    record s {
      relay = record s.relay {
        lan = some 0;
        pump = alive;
        writer = some 1;
        next_lan = 1;
        open_lans = 0 ∷ [];
      };
    }

abbrev runtime : Runtime
runtime = record {
  api = record (new_api (codes "me") (some (codes "me"))) { client = true };
  serial = codes "A1-C2";
  coordinator = new_coordinator;
  values = [];
  related = codes "C2";
  relay = some busy;
  live_view_mode = text (codes "hls");
}

abbrev loaded : Host
loaded = record host { entries = (codes "e1", runtime) ∷ [] }

async_unload_entry-IsUnloaded_example :
    let unload = λ (until_closed : Option (List Event)).
      async_unload_entry true until_closed false (codes "e1") loaded in
    IsUnloaded (codes "e1") runtime loaded (unload (some (time_passed 3 ∷ detached 1 ∷ [])))
    × IsHeld false (codes "e1") runtime (unload none)
    × ((async_unload_entry false none false (codes "e1") loaded).host ≡ loaded)
async_unload_entry-IsUnloaded_example =
    async_unload_entry-IsUnloaded (time_passed 3 ∷ detached 1 ∷ []) none false (codes "e1") runtime
      loaded (unfold value_at equal in refl)
