-- ===== src/Relay/Tests/Notify.antt =====
-- Runs of what the camera shows of the relay of tcp_relay.py.
use ezviz_hp.Base.{[], ◌∷◌, ◌≡◌, refl, some}
use ezviz_hp.Relay.Session.Step.{run, prewarmed, published, detached, timer_fired, time_passed}
use ezviz_hp.Relay.Session.Notify.{is_streaming, shown, shown-is_streaming}
use ezviz_hp.Relay.State.{motion}
use ezviz_hp.Relay.Tests.{fresh, attempt}

shown-is_streaming_example :
    let es =
      prewarmed attempt 60 motion ∷ published 1 ∷ detached 1 ∷ time_passed 90 ∷ timer_fired ∷ [] in
    shown es fresh (is_streaming (some fresh)) ≡ is_streaming (some (run es fresh))
shown-is_streaming_example =
    shown-is_streaming
      (prewarmed attempt 60 motion ∷ published 1 ∷ detached 1 ∷ time_passed 90 ∷ timer_fired ∷ [])
      fresh (refl, (refl, (refl, (refl, (refl, tt)))))
