-- ===== src/Ws/Drains.antt =====
-- The loop of Run catches up: what waits for the hub is delivered.
use masonic_core.Ws.Registry.{member, conns_of}
use masonic_core.Prelude.{
  ℕ, ◌&&◌, ◌||◌, ◌==◌, ltb, length, if◌then◌else◌, ◌≡◌, Bool, false, List, [], ◌∷◌, ◌++◌, map,
}
use masonic_core.Ws.{Event, Hub, Notify}
use masonic_core.Ws.Steps.{Conn, System, receive, deliver, Step}

pub data Steps : System → System → Type 0 where
  stop : {s : System} → Steps s s
  go : {s t u : System} → Step s t → Steps t u → Steps s u

-- The connections after each of the events in turn.
abbrev delivered : Hub → List Notify → List Conn → List Conn
delivered h [] cs = cs
delivered h (n ∷ ns) cs = delivered h ns (map (receive h n) cs)

-- The buffer of a connection of a user when events come one after another: an event is kept if the
-- connection is registered under its user, the event is for everyone or for this user, and fewer than
-- 64 events are in the buffer. Any other event changes nothing.
abbrev pub offered : Hub → ℕ → ℕ → List Notify → List Event → List Event
offered h id user_id [] buffer = buffer
offered h id user_id (n ∷ ns) buffer = offered h id user_id ns (
    if member id (conns_of user_id h.clients)
      && (n.user_id == 0 || n.user_id == user_id)
      && ltb (length buffer) 64
    then buffer ++ n.event ∷ []
    else buffer)

abbrev pub served : Hub → List Notify → Conn → Conn
served h ns c = record c { buffer = offered h c.id c.user_id ns c.buffer }

-- Nothing waits and nothing is queued any more; every connection has got the events that were queued and
-- then those that waited, and nothing else has changed.
pub record IsDrained (s t : System) : Type 0 where
  pub hub : t.hub ≡ record s.hub { notify_ch = [] }
  pub waiting : t.waiting ≡ []
  pub conns : t.conns ≡ map (served s.hub (s.hub.notify_ch ++ s.waiting)) s.conns
  pub calm : t.panicked ≡ false

abbrev at : Hub → List Notify → List Conn → List Notify → Bool → System
at h q cs ns p = record { hub = record h { notify_ch = q }; conns = cs; waiting = ns; panicked = p }

-- A panic of `deliver` that comes on top of `p`.
abbrev shaken : Hub → List Notify → List Conn → List Notify → Bool → Notify → Bool
shaken h q cs ns p n = (deliver n (at h q cs ns p)).panicked
