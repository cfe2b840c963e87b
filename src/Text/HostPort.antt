-- ===== src/Text/HostPort.antt =====
-- `net.SplitHostPort`, of which the services use the host.
use masonic_core.Prelude.{
  ℕ, Bool, false, ◌||◌, Option, none, some, List, [], ◌∷◌, reverse, ◌==◌, if◌then◌else◌,
}

contains : ℕ → List ℕ → Bool
contains b [] = false
contains b (a ∷ s) = a == b || contains b s

-- What stands before and after the first `b`.
split_at : ℕ → List ℕ → List ℕ → Option (List ℕ × List ℕ)
split_at b acc [] = none
split_at b acc (a ∷ s) =
    let rest = split_at b (a ∷ acc) s in if a == b then some (reverse acc, s) else rest

-- What stands before and after the last colon.
split_last_colon : List ℕ → Option (List ℕ × List ℕ)
unfolding split_at
split_last_colon s = elim (split_at b':' [] (reverse s)) [
  | none ↦ none
  | some (after, before) ↦ some (reverse before, reverse after)
]

-- After `[host]` one colon and the port; no further bracket.
bracketed : List ℕ → List ℕ → Option (List ℕ)
unfolding contains
bracketed host [] = none
bracketed host (c ∷ port) =
    if c == b':'
    then if contains b':' port || (contains b'[' host || (contains b'[' port || contains b']' port))
      then none
      else some host
    else none

plain : List ℕ → List ℕ → Option (List ℕ)
unfolding contains
plain host port =
    if contains b':' host
      || (contains b'[' host || (contains b']' host || (contains b'[' port || contains b']' port)))
    then none
    else some host

unfoldable pub split_host_port : List ℕ → Option (List ℕ)
unfolding split_last_colon split_at bracketed plain
split_host_port [] = none
split_host_port (c ∷ s) =
    if c == b'['
    then elim (split_at b']' [] s) [ none ↦ none | some (host, rest) ↦ bracketed host rest ]
    else elim (split_last_colon (c ∷ s)) [ none ↦ none | some (host, port) ↦ plain host port ]
