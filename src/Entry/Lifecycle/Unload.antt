-- ===== src/Entry/Lifecycle/Unload.antt =====
-- What the set-up of __init__.py leaves, where it fails too, and what unloading takes away again.
use ezviz_hp.Base.{
  ℕ, Bool, true, false, not, Option, none, some, List, [], ◌∷◌, if◌then◌else◌, ◌≡◌, ◌≢◌, refl, ap,
  ◌∙◌, sym, arith, Bool-cases, inl, inr,
}
use mathlib.Core.Path.{subst}
use ezviz_hp.Base.Bytes.{Bytes, equal}
use ezviz_hp.Base.Dict.{Dict}
use ezviz_hp.Base.Table.{value_at, put, value_at-remove, value_at-remove_other}
use ezviz_hp.Base.Keeps.{keep_if, keep_option}
use ezviz_hp.Polling.Values.{Value}
use ezviz_hp.Polling.Coordinator.{Coordinator, new_coordinator, update_data}
use ezviz_hp.Relay.Session.Idle.{IsCold, teardown-IsCold}
use ezviz_hp.Relay.Server.{
  Server, Bound, refused, ports, new_server, async_start, async_stop, async_stop-closed,
}
use ezviz_hp.Relay.Session.Step.{Event, run}
use ezviz_hp.Cloud.Api.{Api}
use ezviz_hp.Cloud.Devices.{close}
use ezviz_hp.Entities.Select.{current_option}
use ezviz_hp.Entry.Setup.{prepare_entry}
use ezviz_hp.Entry.Lifecycle.{
  Entry, Runtime, Host, World, Outcome, not_ready, start_relay, install, first_refresh,
  async_setup_entry, Unloaded, stop_relay, take_down, async_unload_entry,
}

-- What a set-up may come to: it is not ready, and the host has what it had; or the entry is stored with
-- the mode of its options, and a relay only if it listens.
pub data IsSetUp (e : Entry) (h : Host) (r : Outcome × Host) : Type 0 where
  failed : r.0 ≡ not_ready → r.1.entries ≡ h.entries → r.1.hooks ≡ h.hooks → IsSetUp e h r
  stored :
      (x : Runtime)
      → r.0 ≢ not_ready
      → r.1.entries ≡ put e.entry_id x h.entries
      → x.live_view_mode ≡ current_option e.options
      → ((s : Server) → x.relay ≡ some s → s.server ≡ true)
      → IsSetUp e h r

listens : Option Server → Bool
listens none = true
listens (some s) = s.server

start_relay-listens :
    (bound : Bound) (now : ℕ) (s : Server) → start_relay bound now ≡ some s → s.server ≡ true
unfolding start_relay async_start new_server listens
start_relay-listens refused now s h = cc
start_relay-listens (ports []) now s h = cc
start_relay-listens (ports (p ∷ ps)) now s h = ap listens (sym h)

install-IsSetUp :
    (w : World) (e : Entry) (api : Api) (c : Coordinator) (values : Dict Value) (h : Host)
    → IsSetUp e h (install w e api c values h)
unfolding install
install-IsSetUp w e api c values h =
    keep_if (IsSetUp e h) w.forwards _ _
      (stored _ (λ r. cc) refl refl (start_relay-listens w.bound w.now))
      (stored _ (λ r. cc) refl refl (start_relay-listens w.bound w.now))

first_refresh-IsSetUp :
    (w : World) (e : Entry) (api : Api) (h : Host) → IsSetUp e h (first_refresh w e api h)
unfolding first_refresh
first_refresh-IsSetUp w e api h =
    keep_option (IsSetUp e h) (update_data w.tick new_coordinator).0 _ _ (failed refl refl refl)
      (λ (values, logged). install-IsSetUp w e api (update_data w.tick new_coordinator).1 values h)

IsSetUp-data :
    (e : Entry) (h : Host) (d : Dict Value) (r : Outcome × Host)
    → IsSetUp e (record h { entry_data = d }) r
    → IsSetUp e h r
IsSetUp-data e h d r (failed a b c) = failed a b c
IsSetUp-data e h d r (stored x a b c f) = stored x a b c f

-- Whatever the cloud, the event loop and the host answer: a set-up that is not ready leaves the other
-- data of the host and its hooks as they were; any other has stored the entry, with the mode of its
-- options, and with a relay only where that listens.
pub async_setup_entry-IsSetUp :
    (w : World) (e : Entry) (h : Host) → IsSetUp e h (async_setup_entry w e h)
unfolding async_setup_entry
async_setup_entry-IsSetUp w e h =
    let (d, code, token) = prepare_entry w.new_code h.entry_data in
    let prepared = record h { entry_data = d } in
    keep_if (IsSetUp e h) _ _ _ (IsSetUp-data e h d _ (first_refresh-IsSetUp w e _ prepared))
      (failed refl refl refl)

-- What unloading should leave of the entry `id` with the runtime `x`.
pub record IsUnloaded (id : Bytes) (x : Runtime) (h : Host) (u : Unloaded) : Type 0 where
  pub finished : u.finished ≡ true
  pub gone : value_at id u.host.entries ≡ none
  pub others : (k : Bytes) → equal id k ≡ false → value_at k u.host.entries ≡ value_at k h.entries
  pub relay :
      (s : Server)
      → x.relay ≡ some s
      → s.server ≡ true
      → (t : Server) × (u.relay ≡ some t) × (t.server ≡ false) × (t.port ≡ 0) × IsCold t.relay
  pub api : (a : Api) × (u.api ≡ some a) × (a.client ≡ false)

-- whether there is a relay, and it listens
abbrev pub is_up : Option Server → Bool
is_up none = false
is_up (some s) = s.server

-- What it leaves where a viewer stays: it waits for it exactly where the relay listens; the entry is gone,
-- the relay is as it was, and so is the client, unless there is nothing to wait for.
pub record IsHeld (fails : Bool) (id : Bytes) (x : Runtime) (u : Unloaded) : Type 0 where
  pub waits : u.finished ≡ not (is_up x.relay)
  pub gone : value_at id u.host.entries ≡ none
  pub relay : u.relay ≡ x.relay
  pub api : u.api ≡ some (if is_up x.relay then x.api else (close fails x.api).1)

close-client : (fails : Bool) (a : Api) → (close fails a).1.client ≡ false
unfolding close
close-client fails a = ground arith

stop_relay-ends :
    (es : List Event) (o : Option Server)
    → ((stop_relay (some es) o).0 ≡ true)
      × ((s : Server)
          → o ≡ some s
          → s.server ≡ true
          → (t : Server) × ((stop_relay (some es) o).1 ≡ some t)
            × (t.server ≡ false)
            × (t.port ≡ 0)
            × IsCold t.relay)
unfolding stop_relay listens
stop_relay-ends es none = (refl, λ s e up. absurd (cc))
stop_relay-ends es (some s') = (
  unfold async_stop in ground arith,
  λ s e up.
      let stopped = async_stop-closed es s' (ap listens e ∙ up) in
      (
        (async_stop (some es) s').1,
        refl,
        ap (λ (r : Bool × Server). r.1.server) stopped,
        ap (λ (r : Bool × Server). r.1.port) stopped,
        subst (λ (r : Bool × Server). IsCold r.1.relay) (sym stopped)
            (teardown-IsCold (run es s'.relay)).0,
      ),
)

stop_relay-held : (o : Option Server) → stop_relay none o ≡ (not (is_up o), o)
unfolding stop_relay async_stop
stop_relay-held none = refl
stop_relay-held (some s) = elim (Bool-cases s.server) [
  | inl up ↦ rw up refl
  | inr down ↦ rw down refl
]

held_api : (b : Bool) (x y : Api) → some (if not b then y else x) ≡ some (if b then x else y)
held_api true x y = refl
held_api false x y = refl

-- The entry is there, with any runtime, and the host has unloaded its platforms. Where every viewer
-- that is connected to the relay goes, whatever happens until then: the unloading ends, the entry
-- is gone and every other one kept, its client has no session any more, and its relay, if it
-- listened, does not listen and has nothing left of its LAN session. Where a viewer stays, and the
-- relay listens, it never ends: the entry is gone, but its relay is not torn down and its client
-- not closed. Where the host has not unloaded the platforms, nothing changes.
pub async_unload_entry-IsUnloaded :
    (es : List Event) (until_closed : Option (List Event)) (fails : Bool) (id : Bytes) (x : Runtime)
    (h : Host)
    → value_at id h.entries ≡ some x
    → IsUnloaded id x h (async_unload_entry true (some es) fails id h)
      × IsHeld fails id x (async_unload_entry true none fails id h)
      × ((async_unload_entry false until_closed fails id h).host ≡ h)
unfolding async_unload_entry take_down
async_unload_entry-IsUnloaded es until_closed fails id x h e =
    let (ends, cold) = stop_relay-ends es x.relay in
    let held = stop_relay-held x.relay in
    let closed = (close fails x.api).1 in
    (
      rw e (record {
        finished = ends;
        gone = value_at-remove id h.entries;
        others = λ k d. value_at-remove_other id k h.entries d;
        relay = cold;
        api = (_, ap (λ b. some (if b then closed else x.api)) ends, close-client fails x.api);
      }),
      rw e (record {
        waits = ap (λ p. p.0) held;
        gone = value_at-remove id h.entries;
        relay = ap (λ p. p.1) held;
        api =
            ap (λ (p : Bool × Option Server). some (if p.0 then closed else x.api)) held
            ∙ held_api (is_up x.relay) x.api closed;
      }),
      refl,
    )
