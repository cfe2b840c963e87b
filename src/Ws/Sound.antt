-- ===== src/Ws/Sound.antt =====
-- Single connections: what each step of the hub keeps of them.
use masonic_core.Prelude.{
  ℕ, Bool, ◌≤◌, ◌≡◌, refl, inl, inr, true, false, ◌&&◌, ◌||◌, not, List, [], ◌∷◌, arith, ◌==◌,
  if◌then◌else◌, ==_iff, Bool-cases, length, any_row, All, length-append,
}
use masonic_core.Ws.{Hub, Event, Notify, register_locked, unregister_locked, send_buffer}
use masonic_core.Ws.Registry.{add, lookup, conns_of, set_or_new, member-add, lookup-put}
use masonic_core.Ws.Presence.{lookup-drop_client, member-left_of}
use masonic_core.Ws.Steps.{
  live, leaving, Conn, is_closed, registered, is_target, receive, is_conn, shut, take_event,
  is_writer, without_first,
}

-- A registered connection is live, and no buffer is over its capacity.
pub record IsSound (h : Hub) (c : Conn) : Type 0 where
  pub open_while_registered : registered h c ≡ true → c.phase ≡ live
  pub bounded : length c.buffer ≤ send_buffer

pub registered-register :
    (h : Hub) (id user_id : ℕ) (c : Conn)
    → registered (register_locked h id user_id).0 c
      ≡ (user_id == c.user_id && id == c.id || registered h c)
unfolding registered register_locked conns_of
registered-register h id user_id c = ground (
  arith,
  lookup-put user_id c.user_id (add id (set_or_new (lookup user_id h.clients))) h.clients,
  ==_iff user_id c.user_id,
  member-add id c.id (set_or_new (lookup user_id h.clients)),
)

pub registered-unregister :
    (h : Hub) (id user_id : ℕ) (c : Conn)
    → registered (unregister_locked h id user_id).0 c
      ≡ (not (user_id == c.user_id && id == c.id) && registered h c)
unfolding registered unregister_locked conns_of
registered-unregister h id user_id c =
    rw (lookup-drop_client id user_id c.user_id (lookup user_id h.clients) h.clients refl)
      (ground (arith, ==_iff user_id c.user_id, member-left_of id c.id (lookup user_id h.clients)))

-- A fresh connection is none of those that are there.
pub register-IsSound :
    (h : Hub) (id user_id : ℕ) (cs : List Conn)
    → any_row (λ c. c.id == id) cs ≡ false
    → All (IsSound h) cs
    → All (IsSound (register_locked h id user_id).0) cs
unfolding any_row
register-IsSound h id user_id [] fresh a = tt
register-IsSound h id user_id (c ∷ cs) fresh (s, a) = (
  record {
    open_while_registered = λ r.
        ground (arith, s.open_while_registered, registered-register h id user_id c, ==_iff id c.id);
    bounded = s.bounded;
  },
  register-IsSound h id user_id cs (ground arith) a,
)

pub leave-IsSound :
    (h : Hub) (id user_id : ℕ) (c : Conn)
    → IsSound h c
    → IsSound
        (unregister_locked h id user_id).0
        (if is_conn id user_id c then record c { phase = leaving } else c)
unfolding registered
leave-IsSound h id user_id c s = elim (Bool-cases (is_conn id user_id c)) [
  | inl e ↦ rw e (record {
    open_while_registered =
        λ r. ground (arith, registered-unregister h id user_id (record c { phase = leaving }));
    bounded = s.bounded;
  })
  | inr e ↦ rw e (record {
    open_while_registered =
        λ r. ground (arith, s.open_while_registered, registered-unregister h id user_id c);
    bounded = s.bounded;
  })
]

pub close-IsSound :
    (h : Hub) (id user_id : ℕ) (c : Conn)
    → IsSound h c
    → IsSound h (if is_conn id user_id c then record c { phase = shut c.phase } else c)
unfolding registered
close-IsSound h id user_id c s = elim (Bool-cases (is_conn id user_id c)) [
  | inl e ↦ rw e (record {
    open_while_registered = λ r. ground (arith, s.open_while_registered);
    bounded = s.bounded;
  })
  | inr e ↦ rw e s
]

without_first-bound : (evs : List Event) → length (without_first evs) ≤ length evs
without_first-bound [] = omega arith
without_first-bound (ev ∷ evs) = omega arith

-- The pump makes room and touches nothing else.
take-IsSound :
    (h : Hub) (evs : List Event) (c : Conn)
    → length evs ≤ send_buffer
    → IsSound h c
    → IsSound h (take_event evs c)
unfolding registered
take-IsSound h [] c l s = s
take-IsSound h (ev ∷ evs) c l s = record {
  open_while_registered = s.open_while_registered;
  bounded = omega arith;
}

pub write-IsSound :
    (h : Hub) (id user_id : ℕ) (c : Conn)
    → IsSound h c
    → IsSound h (if is_writer id user_id c then take_event c.buffer c else c)
write-IsSound h id user_id c s = elim (Bool-cases (is_writer id user_id c)) [
  | inl e ↦ rw e (take-IsSound h c.buffer c s.bounded s)
  | inr e ↦ rw e s
]

left_over :
    (taken : Bool) (evs : List Event)
    → length (if taken then without_first evs else evs) ≤ length evs
left_over true evs = without_first-bound evs
left_over false evs = omega arith

pub give_up-IsSound :
    (h : Hub) (taken : Bool) (id user_id : ℕ) (c : Conn)
    → IsSound h c
    → IsSound h (
        if is_writer id user_id c
        then record c {
          writing = false;
          buffer = if taken then without_first c.buffer else c.buffer;
        }
        else c)
unfolding registered
give_up-IsSound h taken id user_id c s = elim (Bool-cases (is_writer id user_id c)) [
  | inl e ↦ rw e (record {
    open_while_registered = s.open_while_registered;
    bounded = omega (arith, left_over taken c.buffer, s.bounded);
  })
  | inr e ↦ rw e s
]

pub receive-IsSound : (h : Hub) (n : Notify) (c : Conn) → IsSound h c → IsSound h (receive h n c)
unfolding registered receive
receive-IsSound h n c s = record {
  open_while_registered = λ r. ground (arith, s.open_while_registered);
  bounded = ground (arith, length-append c.buffer (n.event ∷ []));
}

-- The connections that `deliver` reaches are open.
pub no_closed_target :
    (h : Hub) (n : Notify) (cs : List Conn)
    → All (IsSound h) cs
    → any_row (λ c. is_target h n c && is_closed c.phase) cs ≡ false
unfolding any_row is_target
no_closed_target h n [] a = refl
no_closed_target h n (c ∷ cs) (s, a) =
    ground (arith, s.open_while_registered, no_closed_target h n cs a)
