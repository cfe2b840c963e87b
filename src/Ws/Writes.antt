-- ===== src/Ws/Writes.antt =====
-- The pump of a connection catches up: what is in its buffer is written to the socket.
use masonic_core.Prelude.{
  append-nil, append_assoc, ℕ, zero, suc, ◌≤◌, ◌≡◌, refl, sym, ap, ◌∙◌, subst, ◌⊎◌, inl, inr, false,
  List, [], ◌∷◌, ◌++◌, arith, if◌then◌else◌, Bool-cases, length, update_rows, All, All-imp,
}
use masonic_core.Ws.{Event, send_buffer}
use masonic_core.Ws.Steps.{Conn, System, take_event, is_writer, write, writes, Reach}
use masonic_core.Ws.Sound.{IsSound}
use masonic_core.Ws.Safety.{reach-IsSafe}
use masonic_core.Ws.Drains.{Steps, stop, go}

-- A connection with its buffer written, in order, after what was written before.
abbrev pub flushed : Conn → Conn
flushed c = record c { buffer = []; written = c.written ++ c.buffer }

flushed-take_event :
    (c : Conn) (evs : List Event) → c.buffer ≡ evs → flushed (take_event evs c) ≡ flushed c
flushed-take_event c [] e = refl
flushed-take_event c (ev ∷ evs) e =
    ap (λ (l : List Event). record c { buffer = []; written = l })
      (append_assoc c.written (ev ∷ []) evs ∙ ap (λ (l : List Event). c.written ++ l) (sym e))

flushed-nil : (c : Conn) → c.buffer ≡ [] → flushed c ≡ c
flushed-nil c e =
    ap (λ (l : List Event). record c { buffer = []; written = c.written ++ l }) e
    ∙ ap (λ (l : List Event). record c { buffer = []; written = l }) (append-nil c.written)
    ∙ ap (λ (l : List Event). record c { buffer = l }) (sym e)

nil_of_bound : (evs : List Event) → length evs ≤ 0 → evs ≡ []
nil_of_bound [] h = refl
nil_of_bound (ev ∷ evs) h = absurd (omega arith)

module _ (id user_id : ℕ) where
  is_writer-take_event :
      (evs : List Event) (c : Conn)
      → is_writer id user_id (take_event evs c) ≡ is_writer id user_id c
  is_writer-take_event [] c = refl
  is_writer-take_event (ev ∷ evs) c = refl

  take_event-bound :
      (n : ℕ) (c : Conn) (evs : List Event)
      → c.buffer ≡ evs
      → length evs ≤ suc n
      → length (take_event evs c).buffer ≤ n
  take_event-bound n c [] e h = rw e (omega arith)
  take_event-bound n c (ev ∷ evs) e h = omega arith

  abbrev flush_row : Conn → Conn
  flush_row c = if is_writer id user_id c then flushed c else c

  abbrev take_row : Conn → Conn
  take_row c = if is_writer id user_id c then take_event c.buffer c else c

  -- A connection whose pump runs has at most `n` events in its buffer.
  abbrev Fits : ℕ → Conn → Type 0
  Fits n c = (is_writer id user_id c ≡ false) ⊎ (length c.buffer ≤ n)

  flush_row-take_row : (c : Conn) → flush_row (take_row c) ≡ flush_row c
  flush_row-take_row c = elim (Bool-cases (is_writer id user_id c)) [
    | inl e ↦ rw (e, is_writer-take_event c.buffer c, e) (flushed-take_event c c.buffer refl)
    | inr e ↦ rw (e, e) refl
  ]

  flush_row-empty : (c : Conn) → Fits 0 c → flush_row c ≡ c
  flush_row-empty c (inl e) = rw e refl
  flush_row-empty c (inr h) = elim (Bool-cases (is_writer id user_id c)) [
    | inl e ↦ rw e (flushed-nil c (nil_of_bound c.buffer h))
    | inr e ↦ rw e refl
  ]

  Fits-take_row : (n : ℕ) (c : Conn) → Fits (suc n) c → Fits n (take_row c)
  Fits-take_row n c (inl e) = rw e (inl e)
  Fits-take_row n c (inr h) = elim (Bool-cases (is_writer id user_id c)) [
    | inl e ↦ rw e (inr (take_event-bound n c c.buffer refl h))
    | inr e ↦ rw e (inl e)
  ]

  abbrev flush_all : List Conn → List Conn
  flush_all cs = update_rows (is_writer id user_id) flushed cs

  abbrev take_all : List Conn → List Conn
  take_all cs = update_rows (is_writer id user_id) (λ c. take_event c.buffer c) cs

  flush_all-take_all : (cs : List Conn) → flush_all (take_all cs) ≡ flush_all cs
  unfolding update_rows
  flush_all-take_all [] = refl
  flush_all-take_all (c ∷ cs) = cc (flush_row-take_row c, flush_all-take_all cs)

  flush_all-empty : (cs : List Conn) → All (Fits 0) cs → flush_all cs ≡ cs
  unfolding update_rows
  flush_all-empty [] f = refl
  flush_all-empty (c ∷ cs) (l, f) = cc (flush_row-empty c l, flush_all-empty cs f)

  Fits-take_all : (n : ℕ) (cs : List Conn) → All (Fits (suc n)) cs → All (Fits n) (take_all cs)
  unfolding update_rows
  Fits-take_all n [] f = tt
  Fits-take_all n (c ∷ cs) (l, f) = (Fits-take_row n c l, Fits-take_all n cs f)

  write-Steps :
      (n : ℕ) (s : System) → All (Fits n) s.conns → Steps s (record s { conns = flush_all s.conns })
  unfolding write
  write-Steps zero s f =
      subst (λ cs. Steps s (record s { conns = cs })) (sym (flush_all-empty s.conns f)) stop
  write-Steps (suc n) s f =
      subst (λ cs. Steps s (record s { conns = cs })) (flush_all-take_all s.conns)
        (go (writes id user_id refl)
          (write-Steps n (record s { conns = take_all s.conns }) (Fits-take_all n s.conns f)))

  sound-Fits : (s : System) (cs : List Conn) → All (IsSound s.hub) cs → All (Fits send_buffer) cs
  sound-Fits s cs a = All-imp (IsSound s.hub) (Fits send_buffer) (λ c i. inr i.bounded) cs a

-- Whatever the goroutines of the hub have done, the pump of a connection that still runs can go on, with
-- no other help, until its buffer is empty: then it has written to the socket what it had written
-- before and after that the events of the buffer, each once and in order, and nothing else has changed.
pub reach-writes :
    {s : System} (id user_id : ℕ)
    → Reach s
    → Steps s (record s { conns = update_rows (is_writer id user_id) flushed s.conns })
reach-writes {s} id user_id r =
    write-Steps id user_id send_buffer s (sound-Fits id user_id s s.conns (reach-IsSafe r).sound)
