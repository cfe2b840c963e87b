-- ===== src/Ws/Safety.antt =====
-- What holds of the hub whatever the goroutines do.
use masonic_core.Prelude.{
  ℕ, Bool, ◌≤◌, ◌<◌, ◌≡◌, refl, ap, false, some, List, [], ◌∷◌, ◌++◌, arith, ◌==◌, if◌then◌else◌,
  length, any_row, All, All-map, All-update, length-append,
}
use masonic_core.Ws.{Hub, Notify, register_locked, unregister_locked, send_notify, notify_buffer}
use masonic_core.Ws.Presence.{
  IsConsistent, new_hub-IsConsistent, register-IsConsistent, unregister-IsConsistent,
}
use masonic_core.Ws.Steps.{
  leaving, Conn, System, registered, receive, deliver, connect, is_conn, leave, shut, close, write,
  writes, give_up, gives_up, take_event, is_writer, without_first, Step, connects, leaves, closes,
  posts, sends, runs, Reach, begin, after,
}
use masonic_core.Ws.Sound.{
  IsSound, register-IsSound, leave-IsSound, close-IsSound, write-IsSound, give_up-IsSound,
  receive-IsSound, no_closed_target,
}

pub record IsSafe (s : System) : Type 0 where
  pub consistent : IsConsistent s.hub
  pub sound : All (IsSound s.hub) s.conns
  pub queued : length s.hub.notify_ch ≤ notify_buffer
  pub calm : s.panicked ≡ false

module _ (id user_id : ℕ) (s : System) (i : IsSafe s) where
  connect-IsSafe : any_row (λ c. c.id == id) s.conns ≡ false → IsSafe (connect id user_id s)
  unfolding connect register_locked
  connect-IsSafe fresh = record {
    consistent = register-IsConsistent s.hub id user_id i.consistent;
    sound = (
      record { open_while_registered = λ r. refl; bounded = omega arith },
      register-IsSound s.hub id user_id s.conns fresh i.sound,
    );
    queued = i.queued;
    calm = i.calm;
  }

  leave-IsSafe : IsSafe (leave id user_id s)
  unfolding leave
  leave-IsSafe = record {
    consistent = unregister-IsConsistent s.hub id user_id i.consistent;
    sound =
        All-update (IsSound s.hub) (IsSound (unregister_locked s.hub id user_id).0)
          (is_conn id user_id) (λ c. record c { phase = leaving }) (leave-IsSound s.hub id user_id)
          s.conns i.sound;
    queued = unfold unregister_locked in i.queued;
    calm = i.calm;
  }

  close-IsSafe : IsSafe (close id user_id s)
  unfolding close
  close-IsSafe = record {
    consistent = i.consistent;
    sound =
        All-update (IsSound s.hub) (IsSound s.hub) (is_conn id user_id)
          (λ c. record c { phase = shut c.phase }) (close-IsSound s.hub id user_id) s.conns i.sound;
    queued = i.queued;
    calm = i.calm;
  }

write-IsSafe : (id user_id : ℕ) (s : System) → IsSafe s → IsSafe (write id user_id s)
unfolding write
write-IsSafe id user_id s i = record {
  consistent = i.consistent;
  sound =
      All-update (IsSound s.hub) (IsSound s.hub) (is_writer id user_id) (λ c. take_event c.buffer c)
        (write-IsSound s.hub id user_id) s.conns i.sound;
  queued = i.queued;
  calm = i.calm;
}

give_up-IsSafe :
    (taken : Bool) (id user_id : ℕ) (s : System) → IsSafe s → IsSafe (give_up taken id user_id s)
unfolding give_up
give_up-IsSafe taken id user_id s i = record {
  consistent = i.consistent;
  sound =
      All-update (IsSound s.hub) (IsSound s.hub) (is_writer id user_id)
        (λ c. record c {
          writing = false;
          buffer = if taken then without_first c.buffer else c.buffer;
        })
        (give_up-IsSound s.hub taken id user_id) s.conns i.sound;
  queued = i.queued;
  calm = i.calm;
}

-- The queue of the hub has no part in what is registered.
requeue-IsSound :
    (h : Hub) (q : List Notify) (cs : List Conn)
    → All (IsSound h) cs
    → All (IsSound (record h { notify_ch = q })) cs
unfolding registered
requeue-IsSound h q [] a = tt
requeue-IsSound h q (c ∷ cs) (s, a) = (
  record { open_while_registered = s.open_while_registered; bounded = s.bounded },
  requeue-IsSound h q cs a,
)

send_notify-eq-some :
    (n : Notify) (g h : Hub)
    → send_notify n g ≡ some h
    → (h ≡ record g { notify_ch = g.notify_ch ++ n ∷ [] }) × (length g.notify_ch < notify_buffer)
unfolding send_notify
send_notify-eq-some n g h e = ground arith

module _ (s : System) (i : IsSafe s) where
  send-IsSafe :
      (n : Notify) (ns : List Notify) (h : Hub)
      → send_notify n s.hub ≡ some h
      → IsSafe (record s { hub = h; waiting = ns })
  send-IsSafe n ns h e =
      let (same, room) = send_notify-eq-some n s.hub h e in
      rw same (record {
        consistent = record { filled = i.consistent.filled; present = i.consistent.present };
        sound = requeue-IsSound s.hub (s.hub.notify_ch ++ n ∷ []) s.conns i.sound;
        queued = omega (arith, length-append s.hub.notify_ch (n ∷ []), room);
        calm = i.calm;
      })

  run-IsSafe :
      (n : Notify) (ns : List Notify)
      → s.hub.notify_ch ≡ n ∷ ns
      → IsSafe (deliver n (record s { hub = record s.hub { notify_ch = ns } }))
  unfolding deliver
  run-IsSafe n ns e =
      let h = record s.hub { notify_ch = ns } in
      record {
        consistent = record { filled = i.consistent.filled; present = i.consistent.present };
        sound =
            All-map (IsSound h) (IsSound h) (receive h n) (receive-IsSound h n) s.conns
              (requeue-IsSound s.hub ns s.conns i.sound);
        queued = omega (arith, ap length e, i.queued);
        calm = ground (
          arith,
          i.calm,
          no_closed_target h n s.conns (requeue-IsSound s.hub ns s.conns i.sound),
        );
      }

Step-IsSafe : {s t : System} → Step s t → IsSafe s → IsSafe t
Step-IsSafe {s} (connects id user_id fresh e) i = rw e (connect-IsSafe id user_id s i fresh)
Step-IsSafe {s} (leaves id user_id e) i = rw e (leave-IsSafe id user_id s i)
Step-IsSafe {s} (closes id user_id e) i = rw e (close-IsSafe id user_id s i)
Step-IsSafe {s} (writes id user_id e) i = rw e (write-IsSafe id user_id s i)
Step-IsSafe {s} (gives_up taken id user_id e) i = rw e (give_up-IsSafe taken id user_id s i)
Step-IsSafe (posts n e) i =
    rw e (record { consistent = i.consistent; sound = i.sound; queued = i.queued; calm = i.calm })
Step-IsSafe {s} (sends n early late h e room f) i = rw f (send-IsSafe s i n (early ++ late) h room)
Step-IsSafe {s} (runs n ns e f) i = rw f (run-IsSafe s i n ns e)

-- Whatever the goroutines do, in any order: the users online are those with a registered connection,
-- every registered connection is open, no buffer and no queue passes its capacity, and no event was
-- ever sent on a closed channel.
pub reach-IsSafe : {s : System} → Reach s → IsSafe s
reach-IsSafe begin = record {
  consistent = new_hub-IsConsistent;
  sound = tt;
  queued = omega arith;
  calm = refl;
}
reach-IsSafe (after r st) = Step-IsSafe st (reach-IsSafe r)
