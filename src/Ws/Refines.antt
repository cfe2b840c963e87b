-- ===== src/Ws/Refines.antt =====
-- The hub as what it promises: a set of pairs of a connection and its user.
use masonic_core.Prelude.{
  ℕ, ◌≡◌, refl, ap, ◌∙◌, inl, inr, Bool, true, false, ◌&&◌, not, Option, none, some, List, [], ◌∷◌,
  arith, ◌==◌, Bool-cases, any_row, keep_rows,
}
use masonic_core.Ws.{Hub, new_hub, register_locked, unregister_locked, is_online, has_none}
use masonic_core.Ws.Registry.{member, lookup, set_or_new, conns_of}
use masonic_core.Ws.Presence.{
  IsConsistent, new_hub-IsConsistent, register-IsConsistent, unregister-IsConsistent,
}
use masonic_core.Ws.Steps.{fresh_conn, registered}
use masonic_core.Ws.Sound.{registered-register, registered-unregister}

pub data Change : Type 0 where
  joins parts : (id user_id : ℕ) → Change

-- A critical section of the hub, and whether it is followed by an announcement.
abbrev pub change_hub : Change → Hub → Hub × Bool
change_hub (joins id user_id) h =
    let (h', already) = register_locked h id user_id in (h', not already)
change_hub (parts id user_id) h = unregister_locked h id user_id

abbrev pub Pairs : Type 0
Pairs = List (ℕ × ℕ)

abbrev pub is_pair : ℕ → ℕ → ℕ × ℕ → Bool
is_pair id user_id p = p.0 == id && p.1 == user_id

abbrev pub has_pair : ℕ → ℕ → Pairs → Bool
has_pair id user_id ps = any_row (is_pair id user_id) ps

abbrev pub has_any : ℕ → Pairs → Bool
has_any user_id ps = any_row (λ p. p.1 == user_id) ps

abbrev pub without : ℕ → ℕ → Pairs → Pairs
without id user_id ps = keep_rows (λ p. not (is_pair id user_id p)) ps

-- The same change of the pairs: the first connection of a user is announced, and the end of the last.
abbrev pub change_pairs : Change → Pairs → Pairs × Bool
change_pairs (joins id user_id) ps = ((id, user_id) ∷ ps, not (has_any user_id ps))
change_pairs (parts id user_id) ps =
    (without id user_id ps, has_any user_id ps && not (has_any user_id (without id user_id ps)))

-- A history of changes, and what was announced in it, the latest first.
abbrev pub hub_history : List Change → Hub × List Bool
hub_history [] = (new_hub, [])
hub_history (c ∷ cs) =
    let (h, said) = hub_history cs in let (h', a) = change_hub c h in (h', a ∷ said)

abbrev pub pair_history : List Change → Pairs × List Bool
pair_history [] = ([], [])
pair_history (c ∷ cs) =
    let (ps, said) = pair_history cs in let (ps', a) = change_pairs c ps in (ps', a ∷ said)

record IsView (h : Hub) (ps : Pairs) : Type 0 where
  consistent : IsConsistent h
  conns : (id user_id : ℕ) → member id (conns_of user_id h.clients) ≡ has_pair id user_id ps

any-pair :
    (user_id : ℕ) (ps : Pairs)
    → has_any user_id ps ≡ true
    → (id : ℕ) × (has_pair id user_id ps ≡ true)
unfolding any_row
any-pair user_id [] e = cc
any-pair user_id ((i, u) ∷ ps) e = elim (Bool-cases (u == user_id)) [
  | inl q ↦ (i, ground arith)
  | inr q ↦ let (id, r) = any-pair user_id ps (ground arith) in (id, ground arith)
]

pair_any : (id user_id : ℕ) (ps : Pairs) → has_pair id user_id ps ≡ true → has_any user_id ps ≡ true
unfolding any_row
pair_any id user_id [] e = cc
pair_any id user_id ((i, u) ∷ ps) e = ground (arith, pair_any id user_id ps)

filled :
    (user_id : ℕ) (ps : Pairs) (o : Option (List ℕ)) (id : ℕ)
    → has_any user_id ps ≡ true
    → member id (set_or_new o) ≡ true
    → not (has_none o) ≡ has_any user_id ps
unfolding member
filled user_id ps none id e q = cc
filled user_id ps (some []) id e q = cc
filled user_id ps (some (c ∷ cs)) id e q = cc

empty :
    (user_id : ℕ) (ps : Pairs) (o : Option (List ℕ))
    → has_any user_id ps ≡ false
    → ((id : ℕ) → member id (set_or_new o) ≡ has_pair id user_id ps)
    → not (has_none o) ≡ has_any user_id ps
unfolding member
empty user_id ps none e f = cc
empty user_id ps (some []) e f = cc
empty user_id ps (some (c ∷ cs)) e f = ground (arith, f c, pair_any c user_id ps)

-- A user has a set of connections exactly if a pair names the user.
no_set :
    (user_id : ℕ) (ps : Pairs) (o : Option (List ℕ))
    → ((id : ℕ) → member id (set_or_new o) ≡ has_pair id user_id ps)
    → not (has_none o) ≡ has_any user_id ps
no_set user_id ps o f = elim (Bool-cases (has_any user_id ps)) [
  | inl e ↦ let (id, q) = any-pair user_id ps e in filled user_id ps o id e (f id ∙ q)
  | inr e ↦ empty user_id ps o e f
]

pair-without :
    (id user_id i u : ℕ) (ps : Pairs)
    → has_pair i u (without id user_id ps) ≡ (not (user_id == u && id == i) && has_pair i u ps)
unfolding any_row keep_rows
pair-without id user_id i u [] = ground arith
pair-without id user_id i u ((j, v) ∷ ps) = ground (arith, pair-without id user_id i u ps)

module _ (h : Hub) (ps : Pairs) (v : IsView h ps) where
  online : (user_id : ℕ) → is_online h user_id ≡ has_any user_id ps
  unfolding is_online conns_of
  online user_id =
      v.consistent.present user_id
      ∙ no_set user_id ps (lookup user_id h.clients) (λ id. v.conns id user_id)

  joins-IsView : (id user_id : ℕ) → IsView (register_locked h id user_id).0 ((id, user_id) ∷ ps)
  unfolding any_row registered
  joins-IsView id user_id = record {
    consistent = register-IsConsistent h id user_id v.consistent;
    conns = λ i u. ground (arith, registered-register h id user_id (fresh_conn i u), v.conns i u);
  }

  parts-IsView :
      (id user_id : ℕ) → IsView (unregister_locked h id user_id).0 (without id user_id ps)
  unfolding registered
  parts-IsView id user_id = record {
    consistent = unregister-IsConsistent h id user_id v.consistent;
    conns = λ i u. ground (
      arith,
      registered-unregister h id user_id (fresh_conn i u),
      v.conns i u,
      pair-without id user_id i u ps,
    );
  }

  said_same : (c : Change) → (change_hub c h).1 ≡ (change_pairs c ps).1
  unfolding register_locked unregister_locked is_online conns_of
  said_same (joins id user_id) = ap not (online user_id)
  said_same (parts id user_id) = ground (
    arith,
    online user_id,
    no_set user_id (without id user_id ps)
        (lookup user_id (unregister_locked h id user_id).0.clients)
        (λ i. (parts-IsView id user_id).conns i user_id),
  )

change-IsView :
    (c : Change) (h : Hub) (ps : Pairs)
    → IsView h ps
    → IsView (change_hub c h).0 (change_pairs c ps).0
change-IsView (joins id user_id) h ps v = joins-IsView h ps v id user_id
change-IsView (parts id user_id) h ps v = parts-IsView h ps v id user_id

history-IsView : (cs : List Change) → IsView (hub_history cs).0 (pair_history cs).0
unfolding conns_of lookup member any_row
history-IsView [] = record { consistent = new_hub-IsConsistent; conns = λ id u. refl }
history-IsView (c ∷ cs) = change-IsView c (hub_history cs).0 (pair_history cs).0 (history-IsView cs)

said_alike : (cs : List Change) → (hub_history cs).1 ≡ (pair_history cs).1
said_alike [] = refl
said_alike (c ∷ cs) =
    let e = said_same (hub_history cs).0 (pair_history cs).0 (history-IsView cs) c in
    let r = said_alike cs in cc

-- The specification of a hub: a set of pairs of a connection and its user, to which a connection that
-- opens adds its pair and from which one that closes takes it away; a user is online while some pair
-- names the user, and each change is announced exactly if it makes the user come online or go offline.
pub record Refines (h : Hub) (heard : List Bool) (ps : Pairs) (announced : List Bool) : Type 0 where
  online : (user_id : ℕ) → is_online h user_id ≡ has_any user_id ps
  conns : (id user_id : ℕ) → member id (conns_of user_id h.clients) ≡ has_pair id user_id ps
  said : heard ≡ announced

-- After any history of connections that open and close, twice or without having been open included,
-- the users that the hub reports as online, the connections that it keeps for each user, and the
-- announcements it has made are those of the set of pairs.
pub history-Refines :
    (cs : List Change)
    → Refines (hub_history cs).0 (hub_history cs).1 (pair_history cs).0 (pair_history cs).1
history-Refines cs = record {
  online = online (hub_history cs).0 (pair_history cs).0 (history-IsView cs);
  conns = (history-IsView cs).conns;
  said = said_alike cs;
}
