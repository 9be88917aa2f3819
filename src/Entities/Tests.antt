-- ===== src/Entities/Tests.antt =====
-- Runs of the entities, and the theorems at them.
use ezviz_hp.Base.{suc, ◌*◌, ◌≤◌, true, false, none, some, List, [], ◌∷◌, ◌≡◌, refl, if◌then◌else◌}
use ezviz_hp.Base.Bytes.{equal}
use ezviz_hp.Base.Dict.{Dict, lookup}
use ezviz_hp.Base.Text.{codes}
use ezviz_hp.Polling.Values.{Value, text, get, truthy, same, member}
use ezviz_hp.Polling.Alarm.{Alarm, new_alarm}
use ezviz_hp.Cloud.Api.{Setup, new_api}
use ezviz_hp.Relay.Server.{Server, ports, new_server, async_start, async_stop, url}
use ezviz_hp.Entities.Buttons.{press}
use ezviz_hp.Entities.Buttons.Press.{IsPress, press-IsPress}
use ezviz_hp.Entities.Camera.{
  new_camera, stream_source, handle_mjpeg_stream, no_host, session, nothing, live_view_hls,
  live_view_mjpeg,
}
use ezviz_hp.Entities.Camera.Paths.{Live, new_camera-Live, opens-closes}
use ezviz_hp.Entities.Mjpeg.{
  World, Session, chunk, written, reset, ends_after, stays, ffmpeg_grace, not_spawned, sigterm,
  sigkill, terminate, serve_mjpeg,
}
use ezviz_hp.Entities.Mjpeg.Forward.{IsServed, serve-IsServed}
use ezviz_hp.Entities.Mjpeg.Terminate.{outlives, terminate_lem}
use ezviz_hp.Entities.Select.{
  live_view_options, current_option, IsSelected, options_after, select_option, select_option_lem,
  unchanged,
}
use ezviz_hp.Entities.Identity.{entity_ids, are_distinct, entity_ids_lem}

abbrev values : Dict Value
values = ("local_ip", text (codes "10.0.0.7")) ∷ []

abbrev idle : Server
idle = new_server 100

known_host : no_host (get "local_ip" values) ≡ false
unfolding no_host get lookup truthy same equal
known_host = refl

new_camera-Live_example : Live (new_camera (some idle) live_view_hls) values
new_camera-Live_example = new_camera-Live (some idle) live_view_hls values

idle_down : idle.server ≡ false
unfolding new_server
idle_down = refl

opens-closes_example :
    let s' = (async_start (ports (suc 4000 ∷ [])) idle).1 in
    let stopped = (async_stop (some []) s').1 in
    (stream_source (new_camera (some s') live_view_hls) values ≡ some (url s'))
    × (s'.port ≡ suc 4000)
    × (handle_mjpeg_stream (new_camera (some s') live_view_mjpeg) values ≡ session (url s'))
    × (stream_source (new_camera (some stopped) live_view_hls) values ≡ none)
    × (handle_mjpeg_stream (new_camera (some stopped) live_view_mjpeg) values ≡ nothing)
opens-closes_example = opens-closes idle 4000 [] values [] idle_down known_host

abbrev before : Session
before = record {
  mjpeg_sessions = 0;
  errors_mjpeg = 0;
  process = not_spawned;
  drains = false;
  sent = [];
  total_bytes = 0;
  end_reason = none;
}

-- The client goes with the second chunk.
abbrev world : World
world = record {
  spawns = true;
  prepares = true;
  rounds = chunk (1 ∷ 2 ∷ []) written ∷ chunk (3 ∷ []) reset ∷ [];
  exited = false;
  term = ends_after 1;
  kill = stays;
  cut = some 3;
  eof_fails = false;
}

serve-IsServed_example : IsServed world before (serve_mjpeg world before)
serve-IsServed_example = serve-IsServed world before refl refl refl

terminate_lem_example :
    let e = terminate false stays (ends_after 1) in
    (e.waited ≤ 2 * ffmpeg_grace)
    × (e.signals
        ≡ (if false then [] else if outlives stays then sigterm ∷ sigkill ∷ [] else sigterm ∷ []))
    × (e.runs
        ≡ (if false then false else if outlives stays then outlives (ends_after 1) else false))
terminate_lem_example = terminate_lem false stays (ends_after 1)

abbrev sensors : List Alarm
sensors =
    new_alarm (codes "A1") [] [] (codes "unlock_gate" ∷ []) ∷ new_alarm (codes "A1") [] [] [] ∷ []

abbrev works : Setup
works = record { constructs = true; login = some (codes "me") }

press-IsPress_example :
    let gate = codes "unlock_gate" in
    let door = codes "unlock_door" in
    let api = new_api (codes "me") none in
    IsPress (codes "A1") gate 1 50 true sensors (press (codes "A1") gate works true api)
    × IsPress (codes "A1") door 2 50 true sensors (press (codes "A1") door works true api)
press-IsPress_example =
    press-IsPress (codes "A1") 50 works true (new_api (codes "me") none) sensors (refl, (refl, tt))

hls_offered : member (codes "hls") live_view_options ≡ true
unfolding member equal
hls_offered = refl

select_option_lem_example :
    let r = select_option (codes "hls") [] in
    let after = options_after [] r in
    IsSelected (codes "hls") [] r
    × ((new_camera (some idle) (current_option after)).supports_stream
        ≡ equal (codes "hls") (codes "hls"))
    × (select_option (codes "hls") after ≡ unchanged)
select_option_lem_example = select_option_lem (codes "hls") [] (some idle) hls_offered

entity_ids_lem_example : are_distinct (entity_ids (codes "A1-C2") true true) ≡ true
entity_ids_lem_example = entity_ids_lem (codes "A1-C2") true true
