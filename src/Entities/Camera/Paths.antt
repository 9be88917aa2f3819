-- ===== src/Entities/Camera/Paths.antt =====
-- Which of the two live paths of camera.py is open, and what the relay of tcp_relay.py has to do
-- with it.
use ezviz_hp.Base.{
  ℕ, suc, Bool, true, false, Option, none, some, List, ◌∷◌, ◌≡◌, ◌≢◌, refl, ap, ◌∙◌, arith,
  Bool-cases, Option-cases, inl, inr,
}
use ezviz_hp.Base.Bytes.{Bytes, equal}
use ezviz_hp.Base.Text.{codes}
use ezviz_hp.Base.Dict.{Dict}
use ezviz_hp.Polling.Values.{Value, get, same, same-text}
use ezviz_hp.Relay.Server.{
  Server, ports, async_start, async_stop, url, async_start-ports, async_stop-closed,
}
use ezviz_hp.Relay.Session.Step.{Event}
use ezviz_hp.Entities.Camera.{
  Camera, live_view_hls, live_view_mjpeg, new_camera, listening, no_host, relay_url, stream_source,
  parent, nothing, session, serve, handle_mjpeg_stream,
}

-- At most one of the two live paths is open, the one of the mode.
pub data Live (c : Camera) (values : Dict Value) : Type 0 where
  by_hls :
      (u : Bytes)
      → c.supports_stream ≡ true
      → stream_source c values ≡ some u
      → handle_mjpeg_stream c values ≡ parent
      → Live c values
  by_mjpeg :
      (u : Bytes)
      → c.supports_stream ≡ false
      → stream_source c values ≡ none
      → handle_mjpeg_stream c values ≡ session u
      → Live c values
  closed :
      stream_source c values ≡ none
      → ((u : Bytes) → handle_mjpeg_stream c values ≢ session u)
      → Live c values

other_mode : (mode : Value) → same mode live_view_hls ≡ true → same mode live_view_mjpeg ≡ false
unfolding same equal
other_mode mode h = ap (λ m. same m live_view_mjpeg) (same-text mode (codes "hls") h)

hls-Live :
    (relay : Option Server) (mode : Value) (values : Dict Value)
    → same mode live_view_hls ≡ true
    → Live (new_camera relay mode) values
unfolding new_camera stream_source handle_mjpeg_stream
hls-Live relay mode values hls =
    let deferred : handle_mjpeg_stream (new_camera relay mode) values ≡ parent =
      rw (other_mode mode hls) refl in
    let source : stream_source (new_camera relay mode) values ≡ relay_url relay values =
      rw hls refl in
    elim (Option-cases (relay_url relay values)) [
      | inl n ↦ closed (source ∙ n) (λ u e. cc)
      | inr (u, e) ↦ by_hls u hls (source ∙ e) deferred
    ]

other-Live :
    (relay : Option Server) (mode : Value) (values : Dict Value)
    → same mode live_view_hls ≡ false
    → Live (new_camera relay mode) values
unfolding new_camera stream_source handle_mjpeg_stream serve
other-Live relay mode values other =
    let source : stream_source (new_camera relay mode) values ≡ none = rw other refl in
    elim (Bool-cases (same mode live_view_mjpeg)) [
      | inl mjpeg ↦ elim (Option-cases (relay_url relay values)) [
        | inl n ↦ closed source (rw (mjpeg, n) (λ u e. cc))
        | inr (u, e) ↦ by_mjpeg u other source (rw (mjpeg, e) refl)
      ]
      | inr neither ↦ closed source (rw neither (λ u e. cc))
    ]

-- Whatever the mode, the relay and the data: the camera offers a stream to the host, or serves motion
-- JPEG, or neither, and never both; it has the feature of a stream with the first and not with the
-- second.
pub new_camera-Live :
    (relay : Option Server) (mode : Value) (values : Dict Value)
    → Live (new_camera relay mode) values
new_camera-Live relay mode values = elim (Bool-cases (same mode live_view_hls)) [
  | inl hls ↦ hls-Live relay mode values hls
  | inr other ↦ other-Live relay mode values other
]

open-relay_url :
    (s : Server) (port : ℕ) (values : Dict Value)
    → s.port ≡ suc port
    → no_host (get "local_ip" values) ≡ false
    → relay_url (some s) values ≡ some (url s)
unfolding relay_url listening
open-relay_url s port values p known = ground (arith, p, known)

closed-relay_url :
    (s : Server) (values : Dict Value) → s.port ≡ 0 → relay_url (some s) values ≡ none
unfolding relay_url listening
closed-relay_url s values p = ground (arith, p)

-- A relay that did not listen starts and gets a port that is not 0, and the address of the doorbell
-- is known: in the mode of HLS the camera offers the stream of that port, in the mode of motion
-- JPEG it serves it; once the relay has stopped, whatever happened while it did, neither.
pub opens-closes :
    (s : Server) (port : ℕ) (others : List ℕ) (values : Dict Value) (es : List Event)
    → s.server ≡ false
    → no_host (get "local_ip" values) ≡ false
    → let s' = (async_start (ports (suc port ∷ others)) s).1 in
      let stopped = (async_stop (some es) s').1 in
      (stream_source (new_camera (some s') live_view_hls) values ≡ some (url s'))
      × (s'.port ≡ suc port)
      × (handle_mjpeg_stream (new_camera (some s') live_view_mjpeg) values ≡ session (url s'))
      × (stream_source (new_camera (some stopped) live_view_hls) values ≡ none)
      × (handle_mjpeg_stream (new_camera (some stopped) live_view_mjpeg) values ≡ nothing)
unfolding new_camera stream_source handle_mjpeg_stream serve same equal
opens-closes s port others values es down known =
    let up = ap (λ (r : Bool × Server). r.1) (async_start-ports s (suc port) others down) in
    let s' = (async_start (ports (suc port ∷ others)) s).1 in
    let bound : s'.port ≡ suc port = ap (λ (r : Server). r.port) up in
    let given = open-relay_url s' port values bound known in
    let stopped = async_stop-closed es s' (ap (λ (r : Server). r.server) up) in
    let gone =
      closed-relay_url (async_stop (some es) s').1 values
        (ap (λ (r : Bool × Server). r.1.port) stopped) in
    (given, bound, ap serve given, gone, ap serve gone)
