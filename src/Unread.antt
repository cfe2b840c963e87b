-- ===== src/Unread.antt =====
-- The unread notifications of a user.
use masonic_core.Prelude.{
  ℕ, ◌≡◌, refl, sym, ap, ◌∙◌, inl, inr, false, some, List, [], ◌∷◌, arith, ◌==◌, Bool-cases,
  count_rows, update_rows,
}
use masonic_core.Models.{Notification}
use masonic_core.World.{Database, World, ok, pure, statement}
use masonic_core.Store.Notification
use masonic_core.Store.Notification.{unread, update_read}
use masonic_core.Services.Notification as NotificationService
use masonic_core.World.Rules.{ok-inj, continue-eq-ok, statement-eq-ok}

module _ (user_id now : ℕ) where
  read_at_now : Notification → Notification
  read_at_now n = record n { read_at = some now }

  all_read :
      (ns : List Notification)
      → count_rows (unread user_id) (update_rows (unread user_id) read_at_now ns) ≡ 0
  unfolding count_rows update_rows read_at_now
  all_read [] = refl
  all_read (n ∷ ns) = elim (Bool-cases (unread user_id n)) [
    | inl e ↦ rw e (ground (arith, all_read ns))
    | inr e ↦ rw e (rw e (all_read ns))
  ]

  others_read :
      (other : ℕ) (ns : List Notification)
      → (other == user_id) ≡ false
      → count_rows (unread other) (update_rows (unread user_id) read_at_now ns)
        ≡ count_rows (unread other) ns
  unfolding count_rows update_rows read_at_now
  others_read other [] h = refl
  others_read other (n ∷ ns) h = elim (Bool-cases (unread user_id n)) [
    | inl e ↦ rw e (ground (arith, e, others_read other ns h))
    | inr e ↦ rw e (ground (arith, others_read other ns h))
  ]

-- After a user has marked all notifications as read, none of that user is unread, and every other
-- user has as many unread ones as before.
pub mark_all_read-count_unread :
    (user_id : ℕ) (w : World) (x : Unit {0}) (w' : World)
    → NotificationService.mark_all_read user_id w ≡ ok x w'
    → (count_rows (unread user_id) w'.db.notifications ≡ 0)
      × ((other : ℕ)
          → (other == user_id) ≡ false
          → count_rows (unread other) w'.db.notifications
            ≡ count_rows (unread other) w.db.notifications)
unfolding NotificationService.mark_all_read Notification.mark_all_read update_read read_at_now
mark_all_read-count_unread user_id w x w' h =
    let (n, v, e, g) =
      continue-eq-ok (statement (update_read (unread user_id)) w) (λ _. pure tt) x w' h in
    let (d, q, same) = statement-eq-ok (update_read (unread user_id)) w n v e in
    let now = w.env.clock w.calls in
    let moved : record w.db {
      notifications = update_rows (unread user_id) (read_at_now user_id now) w.db.notifications;
    }
        ≡ d =
      cc in
    let left : w'.db.notifications
        ≡ update_rows (unread user_id) (read_at_now user_id now) w.db.notifications =
      ap (λ (u : World). u.db.notifications) (sym (ok-inj tt x v w' g).1 ∙ same)
      ∙ ap (λ (b : Database). b.notifications) (sym moved) in
    (
      ap (λ (ns : List Notification). count_rows (unread user_id) ns) left
          ∙ all_read user_id now w.db.notifications,
      λ other apart.
          ap (λ (ns : List Notification). count_rows (unread other) ns) left
          ∙ others_read user_id now other w.db.notifications apart,
    )
