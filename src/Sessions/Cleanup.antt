-- ===== src/Sessions/Cleanup.antt =====
-- The clean-up of sessions takes none that a token still stands for.
use masonic_core.Prelude.{
  ℕ, ◌≤◌, ◌≡◌, refl, sym, ap, ◌∙◌, inl, inr, true, false, not, List, [], ◌∷◌, arith, Bool-cases,
  find_row, keep_rows,
}
use masonic_core.Text.{Text}
use masonic_core.Models.{Session}
use masonic_core.World.{Database, World, ok}
use masonic_core.Store.Session
use masonic_core.Store.Session.{live_session, is_spent, delete_spent, is_live}
use masonic_core.World.Rules.{statement-eq-ok}

-- A spent session is live at no later time.
spent-dead :
    (now later : ℕ) (s : Session) → now ≤ later → is_spent now s ≡ true → is_live later s ≡ false
unfolding is_spent is_live
spent-dead now later s h e = ground arith

keep-live :
    (hash : Text) (now later : ℕ) (ss : List Session)
    → now ≤ later
    → live_session hash later (keep_rows (λ s. not (is_spent now s)) ss)
      ≡ live_session hash later ss
unfolding live_session find_row keep_rows
keep-live hash now later [] h = refl
keep-live hash now later (s ∷ ss) h = elim (Bool-cases (is_spent now s)) [
  | inl e ↦ rw (e, spent-dead now later s h e) (ground (arith, keep-live hash now later ss h))
  | inr e ↦ rw e (ground (arith, keep-live hash now later ss h))
]

-- The clean-up of the sessions changes nothing for the tokens: from its time on, every token stands
-- for the same session as without it, or for none as without it.
pub delete_expired-live_session :
    (w : World) (n : ℕ) (w' : World)
    → Session.delete_expired w ≡ ok n w'
    → (hash : Text) (later : ℕ) → w.env.clock w.calls ≤ later
    → live_session hash later w'.db.sessions ≡ live_session hash later w.db.sessions
unfolding Session.delete_expired delete_spent
delete_expired-live_session w n w' h hash later le =
    let (d, q, same) = statement-eq-ok delete_spent w n w' h in
    let moved : record w.db {
      sessions = keep_rows (λ s. not (is_spent (w.env.clock w.calls) s)) w.db.sessions;
    }
        ≡ d =
      cc in
    ap (λ (u : World). live_session hash later u.db.sessions) same
    ∙ ap (λ (b : Database). live_session hash later b.sessions) (sym moved)
    ∙ keep-live hash (w.env.clock w.calls) later w.db.sessions le
