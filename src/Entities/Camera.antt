-- ===== src/Entities/Camera.antt =====
-- custom_components/ezviz_hp7/camera.py: the live picture, the state and the snapshot. The data of the
-- coordinator are `[]` where there are none yet.
pub mod Paths
use ezviz_hp.Base.{
  ℕ, Bool, true, false, not, ◌&&◌, ◌||◌, Option, none, some, List, [], ◌∷◌, ◌++◌, ◌==◌,
  if◌then◌else◌,
}
use ezviz_hp.Base.Bytes.{Bytes, equal}
use ezviz_hp.Base.Text.{codes}
use ezviz_hp.Base.Dict.{Dict}
use ezviz_hp.Polling.Values.{Value, text, get, truthy, same, flag, number}
use ezviz_hp.Relay.Server.{Server, url}

-- `LIVE_VIEW_MJPEG`
abbrev pub live_view_mjpeg : Value
live_view_mjpeg = text (codes "mjpeg")

-- `LIVE_VIEW_HLS`
abbrev pub live_view_hls : Value
live_view_hls = text (codes "hls")

-- The attributes of `Hp7Camera`.
pub record Camera : Type 0 where
  pub relay : Option Server
  pub live_view_mode : Value
  pub supports_stream : Bool

-- `Hp7Camera.__init__`
unfoldable pub new_camera : Option Server → Value → Camera
new_camera relay mode = record {
  relay = relay;
  live_view_mode = mode;
  supports_stream = same mode live_view_hls;
}

-- the relay, where it listens
listening : Option Server → Option Server
listening none = none
listening (some s) = if s.port == 0 then none else some s

-- `not host or host == "0.0.0.0"`
unfoldable pub no_host : Value → Bool
no_host host = not (truthy host) || same host (text (codes "0.0.0.0"))

-- the checks that both live paths make: the address of the relay
relay_url : Option Server → Dict Value → Option Bytes
unfolding listening no_host
relay_url relay values = elim (listening relay) [
  | none ↦ none
  | some s ↦ if no_host (get "local_ip" values) then none else some (url s)
]

-- `stream_source`
unfoldable pub stream_source : Camera → Dict Value → Option Bytes
unfolding relay_url
stream_source c values =
    if not (same c.live_view_mode live_view_hls) then none else relay_url c.relay values

-- What a request for motion JPEG comes to: the answer of the parent class, none, or a session.
pub data Served : Type 0 where
  parent : Served
  nothing : Served
  session : Bytes → Served

serve : Option Bytes → Served
serve none = nothing
serve (some upstream_url) = session upstream_url

-- `handle_async_mjpeg_stream`
unfoldable pub handle_mjpeg_stream : Camera → Dict Value → Served
unfolding relay_url serve
handle_mjpeg_stream c values =
    if not (same c.live_view_mode live_view_mjpeg) then parent else serve (relay_url c.relay values)

-- `status in (1, "1", True, "online")`, of camera.py and sensor.py; in Python 1 is True
unfoldable pub is_online : Value → Bool
is_online v =
    same v (number false 1)
    || (same v (text (codes "1")) || (same v (flag true) || same v (text (codes "online"))))

-- `available`, with what the parent class says
unfoldable pub available : Bool → Dict Value → Bool
available parent_available values = parent_available && is_online (get "status" values)

-- A request for the picture of the last alarm.
pub record Request : Type 0 where
  pub address : Value
  pub authorization : Option Value

-- What comes of it: an exception, or a status and a body.
pub data Response : Type 0 where
  broken : Response
  answered : ℕ → Bytes → Response

body_of : Response → Option Bytes
body_of broken = none
body_of (answered status body) = if status == 200 then some body else none

-- the request of `_cloud_snapshot`, where one is made: the token is a dictionary, `[]` where none
unfoldable pub snapshot_request : Dict Value → Dict Value → Option Request
snapshot_request values [] = none
snapshot_request values (t ∷ token) =
    let address = get "last_alarm_pic" values in
    let access_token = get "access_token" (t ∷ token) in
    if not (truthy address)
    then none
    else some (record {
      address = address;
      authorization = if truthy access_token then some access_token else none;
    })

-- `_cloud_snapshot`
unfoldable pub cloud_snapshot : Dict Value → Dict Value → Response → Option Bytes
unfolding body_of
cloud_snapshot values token response = elim (snapshot_request values token) [
  | none ↦ none
  | some _ ↦ body_of response
]
