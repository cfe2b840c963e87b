-- ===== src/Access/Threads.antt =====
-- Who may delete or change a thread.
use masonic_core.Prelude.{
  ℕ, ◌≡◌, refl, sym, ap, ◌∙◌, ◌⊎◌, inl, inr, Bool, true, false, ◌&&◌, Option, none, some, List, [],
  ◌∷◌, arith, ◌==◌, find_row, any_row, update_rows,
}
use masonic_core.Text.{Text}
use masonic_core.Models.{Thread, ThreadSummary}
use masonic_core.World.{Database, World, row_not_found, forbidden, invalid_input, ok, stamp}
use masonic_core.Store.Cascade.{has_thread, delete_threads, delete_posts}
use masonic_core.Store.Thread
use masonic_core.Services.Roles.{is_moderator}
use masonic_core.Services.Thread as ThreadService
use masonic_core.Services.Thread.{UpdateThreadInput, is_title}
use masonic_core.Integrity.Threads.{update_thread-eq-rows}
use masonic_core.World.Rules.{
  ok-inj, continue-eq-ok, resume-eq-ok, refuse_if-eq-ok, statement-eq-ok,
}
use masonic_core.Access.Reads.{
  is_author, not-false, thread-eq-ok, scan_thread-eq-ok, thread_summary-eq-ok, allowed,
  any-keep_none, any-keep_out, delete_threads-groups,
}

delete_row-eq-ok :
    (id : ℕ) (w : World) (x : Unit {0}) (w' : World)
    → Thread.delete id w ≡ ok x w'
    → w'.db ≡ delete_threads (λ t. t.id == id) w.db
unfolding Thread.delete Thread.delete_row
delete_row-eq-ok id w x w' h =
    let (n, v, e, g) = continue-eq-ok _ _ x w' h in
    let (d, q, same) = statement-eq-ok (Thread.delete_row id) w n v e in
    let (_, last) = refuse_if-eq-ok (n == 0) row_not_found v x w' g in
    let moved : delete_threads (λ t. t.id == id) w.db ≡ d = cc in
    ap (λ (u : World). u.db) (last ∙ same) ∙ sym moved

-- The rows that the deletion of a thread leaves.
delete_threads-has_thread :
    (id : ℕ) (d : Database) → has_thread id (delete_threads (λ t. t.id == id) d) ≡ false
unfolding has_thread delete_threads delete_posts
delete_threads-has_thread id d = any-keep_none (λ t. t.id == id) d.threads

hit :
    (id k : ℕ) (ts : List Thread) (t : Thread)
    → find_row (λ r. r.id == id) ts ≡ some t
    → (k == id) ≡ true
    → any_row (λ r. r.id == id && r.id == k) ts ≡ true
unfolding any_row find_row
hit id k [] t e h = cc
hit id k (r ∷ ts) t e h = ground (arith, hit id k ts t)

delete_threads-posts :
    (id : ℕ) (d : Database) (t : Thread)
    → find_row (λ r. r.id == id) d.threads ≡ some t
    → any_row (λ p. p.thread_id == id) (delete_threads (λ r. r.id == id) d).posts ≡ false
unfolding delete_threads delete_posts
delete_threads-posts id d t is =
    any-keep_out (λ p. p.thread_id == id)
      (λ p. any_row (λ r. r.id == id && r.id == p.thread_id) d.threads)
      (λ p h. hit id p.thread_id d.threads t is h) d.posts

-- A thread that a call of the service deleted was there, and the caller is its author or a moderator.
-- It is gone, no post of it is left, and the groups are as they were.
pub delete_thread-eq-ok :
    (id caller_id : ℕ) (roles : List Text) (w : World) (x : Unit {0}) (w' : World)
    → ThreadService.delete id caller_id roles w ≡ ok x w'
    → ((t : Thread) × (find_row (λ r. r.id == id) w.db.threads ≡ some t)
        × ((t.author_id ≡ caller_id) ⊎ (is_moderator roles ≡ true)))
      × (has_thread id w'.db ≡ false)
      × (any_row (λ p. p.thread_id == id) w'.db.posts ≡ false)
      × (w'.db.groups ≡ w.db.groups)
unfolding ThreadService.delete
delete_thread-eq-ok id caller_id roles w x w' h =
    let (t, v, e, g) = continue-eq-ok _ _ x w' h in
    let (is, read) = thread-eq-ok id _ w t v e in
    let (_, v2, e2, g2) = continue-eq-ok _ _ x w' g in
    let (may, same) = refuse_if-eq-ok _ forbidden v _ v2 e2 in
    let gone = delete_row-eq-ok id v2 x w' (resume-eq-ok _ _ x w' g2) in
    let here : v2.db ≡ w.db = ap (λ (u : World). u.db) (same ∙ read) in
    let left : w'.db ≡ delete_threads (λ r. r.id == id) w.db =
      gone ∙ ap (delete_threads (λ r. r.id == id)) here in
    (
      (t, is, allowed t.author_id caller_id (is_moderator roles) may),
      ap (has_thread id) left ∙ delete_threads-has_thread id w.db,
      ap (λ (d : Database). any_row (λ p. p.thread_id == id) d.posts) left
          ∙ delete_threads-posts id w.db t is,
      ap (λ (d : Database). d.groups) left ∙ delete_threads-groups (λ r. r.id == id) w.db,
    )

-- What a call may write as the title.
title-eq-ok :
    (t : Thread) (o : Option Text) (caller_id : ℕ) (w : World) (s : Text) (w' : World)
    → ThreadService.new_title t o caller_id w ≡ ok s w'
    → (w' ≡ w) × ((s ≡ t.title) ⊎ ((t.author_id ≡ caller_id) × (is_title s ≡ true)))
unfolding ThreadService.new_title
title-eq-ok t none caller_id w s w' h = (cc, inl cc)
title-eq-ok t (some title) caller_id w s w' h =
    let (_, v, e, g) = continue-eq-ok _ _ s w' h in
    let (may, same) = refuse_if-eq-ok _ forbidden w _ v e in
    let (_, v2, e2, g2) = continue-eq-ok _ _ s w' g in
    let (good, same2) = refuse_if-eq-ok _ invalid_input v _ v2 e2 in
    let (eq, last) = ok-inj title s v2 w' g2 in
    (
      sym last ∙ same2 ∙ same,
      inr (
        is_author t.author_id caller_id may,
        ap is_title (sym eq) ∙ not-false (is_title title) good,
      ),
    )

update_row-eq-ok :
    (id : ℕ) (title : Text) (pinned locked : Bool) (w : World) (t : Thread) (w' : World)
    → Thread.update id title pinned locked w ≡ ok t w'
    → w'.db ≡ record w.db {
      threads =
          update_rows (λ r. r.id == id) (Thread.edited title pinned locked (stamp w)) w.db.threads;
    }
unfolding Thread.update
update_row-eq-ok id title pinned locked w t w' h =
    let (o, v, e, g) = continue-eq-ok _ _ t w' h in
    let (d, q, same) =
      statement-eq-ok (Thread.update_thread id (λ t. false) (Thread.edited title pinned locked)) w o
        v e in
    let (_, last) = scan_thread-eq-ok t w' o v g in
    ap (λ (u : World). u.db) (last ∙ same)
    ∙ update_thread-eq-rows id (λ t. false) (Thread.edited title pinned locked) (stamp w) w.db o d q

unmoderated :
    (moderator : Bool) (o : Option Bool) (old : Bool)
    → moderator ≡ false
    → ThreadService.moderated moderator o old ≡ old
unmoderated moderator none old h = refl
unmoderated moderator (some b) old h = rw h refl

-- A thread that a call of the service changed was there, and the caller is its author or a
-- moderator. The call wrote to that thread its title, its pinned and its locked mark and the time of
-- the change, and nothing else. The title is the old one, or the caller is the author and it is a
-- valid title; both marks are the old ones unless the caller is a moderator.
pub update_thread-eq-ok :
    (id : ℕ) (input : UpdateThreadInput) (caller_id : ℕ) (roles : List Text) (w : World)
    (x : ThreadSummary) (w' : World)
    → ThreadService.update id input caller_id roles w ≡ ok x w'
    → (t : Thread) × (title : Text) × (pinned : Bool) × (locked : Bool) × (at : ℕ) × (find_row
          (λ r. r.id == id)
          w.db.threads
        ≡ some t)
      × ((t.author_id ≡ caller_id) ⊎ (is_moderator roles ≡ true))
      × ((title ≡ t.title) ⊎ ((t.author_id ≡ caller_id) × (is_title title ≡ true)))
      × (is_moderator roles ≡ false → (pinned ≡ t.pinned) × (locked ≡ t.locked))
      × (w'.db ≡ record w.db {
        threads =
            update_rows
              (λ r. r.id == id)
              (λ r. record r { title = title; pinned = pinned; locked = locked; updated_at = at })
              w.db.threads;
      })
unfolding ThreadService.update Thread.edited
update_thread-eq-ok id input caller_id roles w x w' h =
    let (t, v, e, g) = continue-eq-ok _ _ x w' h in
    let (is, read) = thread-eq-ok id _ w t v e in
    let (_, v2, e2, g2) = continue-eq-ok _ _ x w' g in
    let (may, same) = refuse_if-eq-ok _ forbidden v _ v2 e2 in
    let (title, v3, e3, g3) = continue-eq-ok _ _ x w' g2 in
    let (same3, good) = title-eq-ok t input.title caller_id v2 title v3 e3 in
    let (u, v4, e4, g4) = continue-eq-ok _ _ x w' g3 in
    let pinned = ThreadService.moderated (is_moderator roles) input.pinned t.pinned in
    let locked = ThreadService.moderated (is_moderator roles) input.locked t.locked in
    let wrote = update_row-eq-ok id title pinned locked v3 u v4 (resume-eq-ok _ _ u v4 e4) in
    let kept = thread_summary-eq-ok u.id v4 x w' g4 in
    let here : v3.db ≡ w.db = ap (λ (u : World). u.db) (same3 ∙ same ∙ read) in
    (
      t,
      title,
      pinned,
      locked,
      (stamp v3).now,
      is,
      allowed t.author_id caller_id (is_moderator roles) may,
      good,
      λ no. (
        unmoderated (is_moderator roles) input.pinned t.pinned no,
        unmoderated (is_moderator roles) input.locked t.locked no,
      ),
      kept
          ∙ wrote
          ∙ ap
              (λ (d : Database). record d {
                threads =
                    update_rows (λ r. r.id == id) (Thread.edited title pinned locked (stamp v3))
                      d.threads;
              })
              here,
    )
