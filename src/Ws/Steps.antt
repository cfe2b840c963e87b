-- ===== src/Ws/Steps.antt =====
-- The hub among its goroutines: connections that come and go, senders that wait for room in
-- `notifyCh`, and the loop of Run. A step is one critical section or one channel operation, and any
-- order of steps is possible. A connection that has left may close at any later step, also before its
-- last presence event is queued, which allows more orders than the code.
use masonic_core.Prelude.{
  ℕ, ◌≡◌, Bool, true, false, ◌&&◌, ◌||◌, not, some, List, [], ◌∷◌, ◌++◌, map, ◌==◌, if◌then◌else◌,
  any_row, update_rows,
}
use masonic_core.Ws.{
  Event, Notify, Hub, new_hub, register_locked, unregister_locked, presence_notify, send_notify,
  queue,
}
use masonic_core.Ws.Registry.{member, conns_of}

-- Registered; past `unregister`; past close(c.send).
pub data Phase : Type 0 where
  live leaving closed : Phase

-- `writing` while WritePump runs, and `written` what it has written to the socket.
pub record Conn : Type 0 where
  pub id : ℕ
  pub user_id : ℕ
  pub buffer : List Event
  pub phase : Phase
  pub writing : Bool
  pub written : List Event

-- `waiting` holds what goroutines are sending on `notifyCh`. A send on a closed channel panics.
pub record System : Type 0 where
  pub hub : Hub
  pub conns : List Conn
  pub waiting : List Notify
  pub panicked : Bool

abbrev pub start : System
start = record { hub = new_hub; conns = []; waiting = []; panicked = false }

abbrev pub is_closed : Phase → Bool
is_closed closed = true
is_closed _ = false

abbrev pub is_live : Phase → Bool
is_live live = true
is_live _ = false

-- A connection is only ever registered under its own user.
unfoldable pub registered : Hub → Conn → Bool
registered h c = member c.id (conns_of c.user_id h.clients)

-- The connections that `deliver` reaches.
unfoldable pub is_target : Hub → Notify → Conn → Bool
unfolding registered
is_target h n c = registered h c && (n.user_id == 0 || n.user_id == c.user_id)

unfoldable pub receive : Hub → Notify → Conn → Conn
unfolding is_target queue
receive h n c = if is_target h n c then record c { buffer = queue n.event c.buffer } else c

-- `deliver`
unfoldable pub deliver : Notify → System → System
unfolding is_target receive
deliver n s = record s {
  conns = map (receive s.hub n) s.conns;
  panicked = s.panicked || any_row (λ c. is_target s.hub n c && is_closed c.phase) s.conns;
}

abbrev announce : Bool → Notify → List Notify → List Notify
announce b n ns = if b then n ∷ ns else ns

abbrev pub fresh_conn : ℕ → ℕ → Conn
fresh_conn id user_id = record {
  id = id;
  user_id = user_id;
  buffer = [];
  phase = live;
  writing = true;
  written = [];
}

-- NewClient, and the start of its pumps.
unfoldable pub connect : ℕ → ℕ → System → System
connect id user_id s =
    let (h, already) = register_locked s.hub id user_id in
    record s {
      hub = h;
      conns = fresh_conn id user_id ∷ s.conns;
      waiting = announce (not already) (presence_notify user_id true) s.waiting;
    }

abbrev pub is_conn : ℕ → ℕ → Conn → Bool
is_conn id user_id c = c.id == id && c.user_id == user_id

-- The first half of Close.
unfoldable pub leave : ℕ → ℕ → System → System
leave id user_id s =
    let (h, gone) = unregister_locked s.hub id user_id in
    record s {
      hub = h;
      conns = update_rows (is_conn id user_id) (λ c. record c { phase = leaving }) s.conns;
      waiting = announce gone (presence_notify user_id false) s.waiting;
    }

-- The second half of Close, for a connection that has left.
abbrev pub shut : Phase → Phase
shut live = live
shut leaving = closed
shut closed = closed

unfoldable pub close : ℕ → ℕ → System → System
close id user_id s = record s {
  conns = update_rows (is_conn id user_id) (λ c. record c { phase = shut c.phase }) s.conns;
}

-- WritePump takes the oldest event of the buffer.
abbrev pub take_event : List Event → Conn → Conn
take_event [] c = c
take_event (ev ∷ evs) c = record c { buffer = evs; written = c.written ++ ev ∷ [] }

abbrev pub is_writer : ℕ → ℕ → Conn → Bool
is_writer id user_id c = is_conn id user_id c && c.writing

-- A turn of WritePump that writes.
unfoldable pub write : ℕ → ℕ → System → System
write id user_id s = record s {
  conns = update_rows (is_writer id user_id) (λ c. take_event c.buffer c) s.conns;
}

abbrev pub without_first : List Event → List Event
without_first [] = []
without_first (ev ∷ evs) = evs

-- A turn of WritePump that fails, with an event that it has taken or with a ping, or that finds the
-- channel closed: it is the last one.
unfoldable pub give_up : Bool → ℕ → ℕ → System → System
give_up taken id user_id s = record s {
  conns =
      update_rows (is_writer id user_id)
        (λ c. record c {
          writing = false;
          buffer = if taken then without_first c.buffer else c.buffer;
        })
        s.conns;
}

pub data Step (s : System) : System → Type 0 where
  connects :
      {t : System} (id user_id : ℕ)
      → any_row (λ c. c.id == id) s.conns ≡ false
      → t ≡ connect id user_id s
      → Step s t
  leaves : {t : System} (id user_id : ℕ) → t ≡ leave id user_id s → Step s t
  closes : {t : System} (id user_id : ℕ) → t ≡ close id user_id s → Step s t
  writes : {t : System} (id user_id : ℕ) → t ≡ write id user_id s → Step s t
  gives_up :
      {t : System} (taken : Bool) (id user_id : ℕ) → t ≡ give_up taken id user_id s → Step s t
  -- A handler calls Notify or Broadcast.
  posts : {t : System} (n : Notify) → t ≡ record s { waiting = n ∷ s.waiting } → Step s t
  -- A waiting send finds room.
  sends :
      {t : System} (n : Notify) (before after : List Notify) (h : Hub)
      → s.waiting ≡ before ++ (n ∷ after)
      → send_notify n s.hub ≡ some h
      → t ≡ record s { hub = h; waiting = before ++ after }
      → Step s t
  -- Run takes the oldest event.
  runs :
      {t : System} (n : Notify) (ns : List Notify)
      → s.hub.notify_ch ≡ n ∷ ns
      → t ≡ deliver n (record s { hub = record s.hub { notify_ch = ns } })
      → Step s t

pub data Reach : System → Type 0 where
  begin : Reach start
  after : {s t : System} → Reach s → Step s t → Reach t
