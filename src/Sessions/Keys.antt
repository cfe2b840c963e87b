-- ===== src/Sessions/Keys.antt =====
-- The unique key of the sessions, and what is left of a session that is revoked.
use masonic_core.Prelude.{
  ℕ, ◌≡◌, refl, sym, ap, ◌∙◌, subst, inl, inr, Bool, true, false, ◌&&◌, ◌||◌, Option, none, some,
  List, [], ◌∷◌, arith, ◌==◌, if◌then◌else◌, ==_refl, Bool-cases, find_row, any_row, update_rows,
  is_none, any-update,
}
use masonic_core.Text.{Text, text_eq, text_eq_iff}
use masonic_core.Models.{Session, NewSession}
use masonic_core.World.{Database, Stamp, rows}
use masonic_core.Store.Session
use masonic_core.Store.Session.{is_live, live_session, insert_session, update_open}

-- sessions.token_hash is UNIQUE.
abbrev pub IsKeyed : List Session → Type 0
IsKeyed [] = Unit {0}
IsKeyed (s ∷ ss) = (any_row (λ r. text_eq r.token_hash s.token_hash) ss ≡ false) × IsKeyed ss

-- The rows after Revoke.
abbrev pub revoked : ℕ → ℕ → List Session → List Session
revoked id at ss =
    update_rows (λ s. s.id == id && is_none s.revoked_at) (λ s. record s { revoked_at = some at })
      ss

swap-none :
    (a b : Text) (ss : List Session)
    → any_row (λ r. text_eq r.token_hash a) ss ≡ false
    → text_eq a b ≡ true
    → any_row (λ r. text_eq r.token_hash b) ss ≡ false
swap-none a b ss h e =
    ap (λ (t : Text). any_row (λ (r : Session). text_eq r.token_hash t) ss)
      (sym ((text_eq_iff a b).0 e))
    ∙ h

find-none :
    (hash : Text) (now : ℕ) (ss : List Session)
    → any_row (λ r. text_eq r.token_hash hash) ss ≡ false
    → live_session hash now ss ≡ none
unfolding live_session any_row find_row
find-none hash now [] h = refl
find-none hash now (s ∷ ss) h = ground (arith, find-none hash now ss)

pub revoked-hash :
    (hash : Text) (id at : ℕ) (ss : List Session)
    → any_row (λ r. text_eq r.token_hash hash) (revoked id at ss)
      ≡ any_row (λ r. text_eq r.token_hash hash) ss
revoked-hash hash id at ss = any-update (λ r. text_eq r.token_hash hash) _ _ (λ r. refl) ss

pub revoked-IsKeyed : (id at : ℕ) (ss : List Session) → IsKeyed ss → IsKeyed (revoked id at ss)
unfolding update_rows
revoked-IsKeyed id at [] k = tt
revoked-IsKeyed id at (s ∷ ss) (h, k) = elim (Bool-cases (s.id == id && is_none s.revoked_at)) [
  | inl e ↦ rw e (revoked-hash s.token_hash id at ss ∙ h, revoked-IsKeyed id at ss k)
  | inr e ↦ rw e (revoked-hash s.token_hash id at ss ∙ h, revoked-IsKeyed id at ss k)
]

-- One row of `revoked`.
abbrev revoked_row : ℕ → ℕ → Session → Session
revoked_row id at r =
    if r.id == id && is_none r.revoked_at then record r { revoked_at = some at } else r

revoked_row-hash : (id at : ℕ) (r : Session) → (revoked_row id at r).token_hash ≡ r.token_hash
revoked_row-hash id at r = ground arith

revoked_row-dead : (later at : ℕ) (r : Session) → is_live later (revoked_row r.id at r) ≡ false
unfolding is_live
revoked_row-dead later at r = elim (Bool-cases (is_none r.revoked_at)) [
  | inl e ↦ rw (e, ==_refl r.id) refl
  | inr e ↦ rw (e, ==_refl r.id) (rw e refl)
]

skip :
    (hash : Text) (now : ℕ) (r : Session) (ss : List Session)
    → (text_eq r.token_hash hash && is_live now r) ≡ false
    → live_session hash now (r ∷ ss) ≡ live_session hash now ss
unfolding live_session find_row
skip hash now r ss h = rw h refl

stop :
    (hash : Text) (now : ℕ) (r : Session) (ss : List Session)
    → (text_eq r.token_hash hash && is_live now r) ≡ true
    → live_session hash now (r ∷ ss) ≡ some r
unfolding live_session find_row
stop hash now r ss h = rw h refl

and-left : (a b : Bool) → a ≡ false → (a && b) ≡ false
and-left a b h = ground arith

and-right : (a b : Bool) → b ≡ false → (a && b) ≡ false
and-right a b h = ground arith

and-both : (a b : Bool) → a ≡ true → b ≡ true → (a && b) ≡ true
and-both a b h k = ground arith

some-inj : (a b : Session) → some a ≡ some b → a ≡ b
some-inj a b h = cc

absurd_none {ℓ} : {A : Type ℓ} (o : Option Session) (s : Session) → o ≡ none → o ≡ some s → A
absurd_none o s h k = cc

-- The row that the token stands for, revoked, ahead of rows without the token's hash.
revoked-head :
    (hash : Text) (now later at : ℕ) (ss : List Session) (r s : Session)
    → any_row (λ q. text_eq q.token_hash hash) ss ≡ false
    → text_eq r.token_hash hash ≡ true
    → live_session hash now (r ∷ ss) ≡ some s
    → live_session hash later (revoked s.id at (r ∷ ss)) ≡ none
unfolding update_rows
revoked-head hash now later at ss r s h same e = elim (Bool-cases (is_live now r)) [
  | inl live ↦
      let is : r ≡ s = some-inj r s (sym (stop hash now r ss (and-both _ _ same live)) ∙ e) in
      subst (λ (q : Session). live_session hash later (revoked q.id at (r ∷ ss)) ≡ none) is
        (skip hash later (revoked_row r.id at r) (revoked r.id at ss)
            (and-right _ _ (revoked_row-dead later at r))
          ∙ find-none hash later (revoked r.id at ss) (revoked-hash hash r.id at ss ∙ h))
  | inr dead ↦
      absurd_none (live_session hash now ss) s (find-none hash now ss h)
        (sym (skip hash now r ss (and-right _ _ dead)) ∙ e)
]

-- Once the session that a token stands for is revoked, the token stands for none at any time.
pub live-revoked :
    (hash : Text) (now later at : ℕ) (ss : List Session) (s : Session)
    → IsKeyed ss
    → live_session hash now ss ≡ some s
    → live_session hash later (revoked s.id at ss) ≡ none
unfolding update_rows
live-revoked hash now later at [] s k e = unfold live_session find_row in refl
live-revoked hash now later at (r ∷ ss) s (h, k) e = elim (Bool-cases (text_eq r.token_hash hash)) [
  | inl same ↦ revoked-head hash now later at ss r s (swap-none r.token_hash hash ss h same) same e
  | inr other ↦
      skip hash later (revoked_row s.id at r) (revoked s.id at ss)
        (and-left _ _ (ap (λ (t : Text). text_eq t hash) (revoked_row-hash s.id at r) ∙ other))
      ∙ live-revoked hash now later at ss s k (sym (skip hash now r ss (and-left _ _ other)) ∙ e)
]

pub live-hash :
    (hash : Text) (now : ℕ) (ss : List Session) (s : Session)
    → live_session hash now ss ≡ some s
    → any_row (λ r. text_eq r.token_hash hash) ss ≡ true
unfolding live_session find_row any_row
live-hash hash now [] s e = cc
live-hash hash now (r ∷ ss) s e = ground (arith, live-hash hash now ss s)

any-or :
    (id : ℕ) (hash : Text) (ss : List Session)
    → any_row (λ s. s.id == id || text_eq s.token_hash hash) ss ≡ false
    → any_row (λ s. text_eq s.token_hash hash) ss ≡ false
unfolding any_row
any-or id hash [] h = refl
any-or id hash (s ∷ ss) h = ground (arith, any-or id hash ss)

insert_with-eq-rows :
    (ns : NewSession) (ip : Option (Option Text)) (st : Stamp) (d : Database) (s : Session)
    (d' : Database)
    → Session.insert_with ns ip st d ≡ rows s d'
    → (d' ≡ record d { sessions = s ∷ d.sessions })
      × (any_row (λ r. text_eq r.token_hash s.token_hash) d.sessions ≡ false)
      × (s.user_id ≡ ns.user_id)
      × (s.token_hash ≡ ns.token_hash)
unfolding Session.insert_with Session.new_row
insert_with-eq-rows ns none st d s d' e = cc
insert_with-eq-rows ns (some ip) st d s d' e =
    ground (arith, any-or st.uuid ns.token_hash d.sessions)

-- A session that is opened has a hash that no other has.
pub insert_session-eq-rows :
    (ns : NewSession) (st : Stamp) (d : Database) (s : Session) (d' : Database)
    → insert_session ns st d ≡ rows s d'
    → (d' ≡ record d { sessions = s ∷ d.sessions })
      × (any_row (λ r. text_eq r.token_hash s.token_hash) d.sessions ≡ false)
      × (s.user_id ≡ ns.user_id)
      × (s.token_hash ≡ ns.token_hash)
unfolding insert_session
insert_session-eq-rows ns st d s d' e = insert_with-eq-rows ns _ st d s d' e

pub live-cons :
    (hash : Text) (now : ℕ) (s : Session) (ss : List Session)
    → any_row (λ r. text_eq r.token_hash s.token_hash) ss ≡ false
    → any_row (λ r. text_eq r.token_hash hash) ss ≡ true
    → live_session hash now (s ∷ ss) ≡ live_session hash now ss
live-cons hash now s ss h k = elim (Bool-cases (text_eq s.token_hash hash)) [
  | inl e ↦ let gone = swap-none s.token_hash hash ss h e in cc
  | inr e ↦ skip hash now s ss (and-left _ _ e)
]
