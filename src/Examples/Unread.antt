-- ===== src/Examples/Unread.antt =====
-- Two users with one unread notification each.
use masonic_core.Prelude.{ℕ, ◌≡◌, refl, false, none, [], ◌∷◌, ◌==◌, count_rows}
use masonic_core.Text.{text}
use masonic_core.Models.{empty_object, Notification}
use masonic_core.World.{World, Outcome, ok, final, statement}
use masonic_core.Store.Notification.{unread}
use masonic_core.Services.Notification as NotificationService
use masonic_core.Unread.{mark_all_read-count_unread}
use masonic_core.Examples.Data.{sample, sample_db}

abbrev note : ℕ → Notification
note user_id = record {
  id = user_id;
  user_id = user_id;
  kind = text "pm";
  payload = empty_object;
  read_at = none;
  created_at = 1;
}

abbrev noted : World
noted = record sample { db = record sample_db { notifications = note 1 ∷ note 2 ∷ [] } }

abbrev marked : Outcome (Unit {0})
marked = NotificationService.mark_all_read 1 noted

marked-ok : marked ≡ ok tt (final marked)
unfolding NotificationService.mark_all_read masonic_core.Store.Notification.mark_all_read statement
marked-ok = refl

mark_all_read-count_unread_example :
    (count_rows (unread 1) (final marked).db.notifications ≡ 0)
    × ((other : ℕ)
        → (other == 1) ≡ false
        → count_rows (unread other) (final marked).db.notifications
          ≡ count_rows (unread other) noted.db.notifications)
mark_all_read-count_unread_example = mark_all_read-count_unread 1 noted tt (final marked) marked-ok
