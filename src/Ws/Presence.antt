-- ===== src/Ws/Presence.antt =====
-- Presence: a user is online exactly while a connection of the user is registered, and is announced
-- exactly when that changes.
use masonic_core.Prelude.{
  ℕ, ◌≡◌, refl, ◌∙◌, ◌≢◌, false, ◌&&◌, not, Option, none, some, List, [], ◌∷◌, arith, ◌==◌,
  if◌then◌else◌, ==_iff,
}
use masonic_core.Ws.{
  Hub, new_hub, register_locked, shrink, drop_client, has_none, unregister_locked,
}
use masonic_core.Ws.Registry.{
  Clients, member, add, remove, lookup, set_or_new, member-add, member-remove, lookup-put,
  lookup-erase,
}

-- No user has an empty set, and the users online are those with a set.
pub record IsConsistent (h : Hub) : Type 0 where
  pub filled : (u : ℕ) → lookup u h.clients ≢ some []
  pub present : (u : ℕ) → member u h.online ≡ not (has_none (lookup u h.clients))

pub new_hub-IsConsistent : IsConsistent new_hub
unfolding lookup member
new_hub-IsConsistent = record { filled = λ u e. cc; present = λ u. refl }

add-ne-nil : (x : ℕ) (ys : List ℕ) → add x ys ≢ []
unfolding add member
add-ne-nil x [] e = cc
add-ne-nil x (y ∷ ys) e = ground arith

has_none-add : (x : ℕ) (ys : List ℕ) → has_none (some (add x ys)) ≡ false
unfolding add member
has_none-add x [] = refl
has_none-add x (y ∷ ys) = ground arith

-- What a set becomes when a connection leaves it.
abbrev non_empty : List ℕ → Option (List ℕ)
non_empty [] = none
non_empty (c ∷ cs) = some (c ∷ cs)

abbrev pub left_of : ℕ → Option (List ℕ) → Option (List ℕ)
left_of id none = none
left_of id (some cs) = non_empty (remove id cs)

lookup-shrink :
    (u v : ℕ) (cs : List ℕ) (r : Clients)
    → lookup v (shrink u cs r) ≡ (if u == v then non_empty cs else lookup v r)
unfolding shrink
lookup-shrink u v [] r = lookup-erase u v r
lookup-shrink u v (c ∷ cs) r = lookup-put u v (c ∷ cs) r

pub lookup-drop_client :
    (id u v : ℕ) (o : Option (List ℕ)) (r : Clients)
    → lookup u r ≡ o
    → lookup v (drop_client id u o r) ≡ (if u == v then left_of id o else lookup v r)
unfolding drop_client
lookup-drop_client id u v none r e = ground arith
lookup-drop_client id u v (some cs) r e = lookup-shrink u v (remove id cs) r

non_empty-ne-nil : (cs : List ℕ) → non_empty cs ≢ some []
non_empty-ne-nil [] e = cc
non_empty-ne-nil (c ∷ cs) e = cc

left_of-ne-nil : (id : ℕ) (o : Option (List ℕ)) → left_of id o ≢ some []
left_of-ne-nil id none e = cc
left_of-ne-nil id (some cs) e = non_empty-ne-nil (remove id cs) e

module _ (h : Hub) (id user_id : ℕ) (c : IsConsistent h) where
  pub register-IsConsistent : IsConsistent (register_locked h id user_id).0
  unfolding register_locked
  register-IsConsistent = record {
    filled = λ u.
        rw lookup-put
          (ground (arith, c.filled u, add-ne-nil id (set_or_new (lookup user_id h.clients))));
    present = λ u.
        rw (lookup-put, member-add)
          (ground (arith, c.present u, has_none-add id (set_or_new (lookup user_id h.clients))));
  }

  pub unregister-IsConsistent : IsConsistent (unregister_locked h id user_id).0
  unfolding unregister_locked
  unregister-IsConsistent = record {
    filled = λ u.
        rw (lookup-drop_client id user_id u (lookup user_id h.clients) h.clients refl)
          (ground (arith, c.filled u, left_of-ne-nil id (lookup user_id h.clients)));
    present = λ u. rw (lookup-drop_client id user_id u (lookup user_id h.clients) h.clients refl) (
        ground (
          arith,
          c.present u,
          c.filled u,
          c.present user_id,
          c.filled user_id,
          ==_iff user_id u,
          member-remove user_id u h.online,
          lookup-drop_client id user_id user_id (lookup user_id h.clients) h.clients refl,
        ));
  }

member-non_empty : (x : ℕ) (cs : List ℕ) → member x (set_or_new (non_empty cs)) ≡ member x cs
member-non_empty x [] = refl
member-non_empty x (c ∷ cs) = refl

-- The members of the set that a connection left.
pub member-left_of :
    (id x : ℕ) (o : Option (List ℕ))
    → member x (set_or_new (left_of id o)) ≡ (not (id == x) && member x (set_or_new o))
unfolding member
member-left_of id x none = ground arith
member-left_of id x (some cs) = member-non_empty x (remove id cs) ∙ member-remove id x cs
