-- ===== src/Ws/Registry.antt =====
-- The maps and sets of the hub, as lists.
use masonic_core.Prelude.{
  ℕ, ◌≡◌, refl, Bool, false, ◌&&◌, ◌||◌, not, Option, none, some, List, [], ◌∷◌, arith, ◌==◌,
  if◌then◌else◌,
}

-- map[uuid.UUID]map[*Client]struct{}: the connections of each user.
abbrev pub Clients : Type 0
Clients = List (ℕ × List ℕ)

unfoldable pub member : ℕ → List ℕ → Bool
member x [] = false
member x (y ∷ ys) = y == x || member x ys

unfoldable pub add : ℕ → List ℕ → List ℕ
add x ys = if member x ys then ys else x ∷ ys

unfoldable pub remove : ℕ → List ℕ → List ℕ
remove x [] = []
remove x (y ∷ ys) = let rest = remove x ys in if y == x then rest else y ∷ rest

unfoldable pub lookup : ℕ → Clients → Option (List ℕ)
lookup u [] = none
lookup u ((v, cs) ∷ r) = if v == u then some cs else lookup u r

unfoldable pub put : ℕ → List ℕ → Clients → Clients
put u cs [] = (u, cs) ∷ []
put u cs ((v, ds) ∷ r) = if v == u then (u, cs) ∷ r else (v, ds) ∷ put u cs r

unfoldable pub erase : ℕ → Clients → Clients
erase u [] = []
erase u ((v, ds) ∷ r) = let rest = erase u r in if v == u then rest else (v, ds) ∷ rest

-- The set of a user, made if it is not there.
abbrev pub set_or_new : Option (List ℕ) → List ℕ
set_or_new none = []
set_or_new (some cs) = cs

-- `h.clients[user]`, the empty set for a user that is not there.
unfoldable pub conns_of : ℕ → Clients → List ℕ
unfolding lookup
conns_of u r = set_or_new (lookup u r)

pub member-add : (x y : ℕ) (ys : List ℕ) → member y (add x ys) ≡ (x == y || member y ys)
unfolding add member
member-add x y ys = ground arith

pub member-remove : (x y : ℕ) (ys : List ℕ) → member y (remove x ys) ≡ (not (x == y) && member y ys)
unfolding member remove
member-remove x y [] = ground arith
member-remove x y (z ∷ ys) = ground (arith, member-remove x y ys)

pub lookup-put :
    (u v : ℕ) (cs : List ℕ) (r : Clients)
    → lookup v (put u cs r) ≡ (if u == v then some cs else lookup v r)
unfolding lookup put
lookup-put u v cs [] = refl
lookup-put u v cs ((w, ds) ∷ r) = ground (arith, lookup-put u v cs r)

pub lookup-erase :
    (u v : ℕ) (r : Clients) → lookup v (erase u r) ≡ (if u == v then none else lookup v r)
unfolding lookup erase
lookup-erase u v [] = ground arith
lookup-erase u v ((w, ds) ∷ r) = ground (arith, lookup-erase u v r)

pub ruleset registry_laws = (member-add, member-remove, lookup-put, lookup-erase)
