-- ===== src/Examples/Access.antt =====
-- Calls of the services at concrete tables that succeed.
use masonic_core.Prelude.{ℕ}
use masonic_core.Prelude.{
  ◌≡◌, refl, ◌⊎◌, Bool, true, false, none, some, [], ◌∷◌, ◌==◌, find_row, any_row, keep_rows,
  count_rows, update_rows,
}
use masonic_core.Text.{Text, text, text_eq, text_eq_iff, to_lower, has_prefix, has_byte, is_listed}
use masonic_core.Models.{role_moderator, Thread, ThreadSummary, Post, PostSummary, Attachment}
use masonic_core.World.{Outcome, ok, final, statement}
use masonic_core.Store.Cascade.{has_group, has_thread, has_post}
use masonic_core.Store.Thread
use masonic_core.Store.Post
use masonic_core.Services.Roles.{is_moderator}
use masonic_core.Services.Group as GroupService
use masonic_core.Services.Thread as ThreadService
use masonic_core.Services.Thread.{UpdateThreadInput, is_body, is_title}
use masonic_core.Services.Post as PostService
use masonic_core.Services.Media as MediaService
use masonic_core.Access.Threads
use masonic_core.Access.Posts
use masonic_core.Access.Posts.{IsCounted}
use masonic_core.Access.Groups
use masonic_core.Access.Media
use masonic_core.Examples.Data.{sample, sample_db, hello, first_post, value_or}

abbrev no_post : PostSummary
no_post = record { post = first_post; author_username = []; author_display = [] }

abbrev no_thread : ThreadSummary
no_thread = record { thread = hello; author_username = []; author_display = [] }

abbrev thread_deleted : Outcome (Unit {0})
thread_deleted = ThreadService.delete 20 1 [] sample

thread_deleted-ok : thread_deleted ≡ ok tt (final thread_deleted)
unfolding ThreadService.delete Thread.get_by_id statement find_row Thread.delete count_rows
thread_deleted-ok = refl

delete_thread_example :
    ((t : Thread) × (find_row (λ r. r.id == 20) sample_db.threads ≡ some t)
      × ((t.author_id ≡ 1) ⊎ (is_moderator [] ≡ true)))
    × (has_thread 20 (final thread_deleted).db ≡ false)
    × (any_row (λ p. p.thread_id == 20) (final thread_deleted).db.posts ≡ false)
    × ((final thread_deleted).db.groups ≡ sample_db.groups)
delete_thread_example =
    Threads.delete_thread-eq-ok 20 1 [] sample tt (final thread_deleted) thread_deleted-ok

abbrev pinning : UpdateThreadInput
pinning = record { title = some (text "Hello all"); pinned = some true; locked = none }

abbrev thread_updated : Outcome ThreadSummary
thread_updated = ThreadService.update 20 pinning 1 (role_moderator ∷ []) sample

thread_updated-ok : thread_updated ≡ ok (value_or no_thread thread_updated) (final thread_updated)
unfolding ThreadService.update Thread.get_by_id statement find_row is_title
    masonic_core.Text.Space.trim_space masonic_core.Text.Runes.rune_count Thread.update any_row
    update_rows Thread.summary_by_id
thread_updated-ok = refl

update_thread_example :
    (t : Thread) × (title : Text) × (pinned : Bool) × (locked : Bool) × (at : ℕ) × (find_row
        (λ r. r.id == 20)
        sample_db.threads
      ≡ some t)
    × ((t.author_id ≡ 1) ⊎ (is_moderator (role_moderator ∷ []) ≡ true))
    × ((title ≡ t.title) ⊎ ((t.author_id ≡ 1) × (is_title title ≡ true)))
    × (is_moderator (role_moderator ∷ []) ≡ false → (pinned ≡ t.pinned) × (locked ≡ t.locked))
    × ((final thread_updated).db ≡ record sample_db {
      threads =
          update_rows
            (λ r. r.id == 20)
            (λ r. record r { title = title; pinned = pinned; locked = locked; updated_at = at })
            sample_db.threads;
    })
update_thread_example =
    Threads.update_thread-eq-ok 20 pinning 1 (role_moderator ∷ []) sample
      (value_or no_thread thread_updated) (final thread_updated) thread_updated-ok

abbrev post_updated : Outcome PostSummary
post_updated = PostService.update 30 1 (text "Edited") sample

post_updated-ok : post_updated ≡ ok (value_or no_post post_updated) (final post_updated)
unfolding PostService.update Post.get_by_id statement find_row is_body
    masonic_core.Text.Space.trim_space masonic_core.Text.Runes.rune_count Post.update_body any_row
    masonic_core.Store.Cascade.has_user update_rows Post.summary_by_id
post_updated-ok = refl

update_post_example :
    (p : Post) × (at : ℕ) × (find_row (λ r. r.id == 30) sample_db.posts ≡ some p)
    × (p.author_id ≡ 1)
    × (is_body (text "Edited") ≡ true)
    × ((final post_updated).db ≡ record sample_db {
      posts =
          update_rows
            (λ r. r.id == 30)
            (λ r. record r {
              body = text "Edited";
              edited_by_id = some 1;
              edited_at = some at;
              updated_at = at;
            })
            sample_db.posts;
    })
update_post_example =
    Posts.update_post-eq-ok 30 1 (text "Edited") sample (value_or no_post post_updated)
      (final post_updated) post_updated-ok

abbrev post_deleted : Outcome (Unit {0})
post_deleted = PostService.delete 30 1 [] sample

post_deleted-ok : post_deleted ≡ ok tt (final post_deleted)
unfolding PostService.delete Post.get_by_id statement find_row Post.delete count_rows
    Thread.recalc_stats any_row masonic_core.Store.Cascade.delete_posts keep_rows
post_deleted-ok = refl

delete_post_example :
    (p : Post) × (find_row (λ r. r.id == 30) sample_db.posts ≡ some p)
    × ((p.author_id ≡ 1) ⊎ (is_moderator [] ≡ true))
    × (has_post 30 (final post_deleted).db ≡ false)
    × IsCounted p.thread_id (final post_deleted).db
delete_post_example = Posts.delete_post-eq-ok 30 1 [] sample tt (final post_deleted) post_deleted-ok

abbrev group_deleted : Outcome (Unit {0})
group_deleted = GroupService.delete 11 sample

group_deleted-ok : group_deleted ≡ ok tt (final group_deleted)
unfolding GroupService.delete masonic_core.Store.Group.get_by_id statement find_row
    Thread.count_by_group count_rows masonic_core.Store.Group.delete
group_deleted-ok = refl

delete_group_example :
    (has_group 11 (final group_deleted).db ≡ false)
    × ((final group_deleted).db.threads ≡ sample_db.threads)
    × ((final group_deleted).db.posts ≡ sample_db.posts)
delete_group_example = Groups.delete_group-eq-ok 11 sample tt (final group_deleted) group_deleted-ok

abbrev media_deleted : Outcome (Unit {0})
media_deleted = MediaService.delete_attachment 40 1 [] sample

media_deleted-ok : media_deleted ≡ ok tt (final media_deleted)
unfolding MediaService.delete_attachment masonic_core.Store.Attachment.get_by_id statement find_row
    masonic_core.Storage.remove masonic_core.Store.Attachment.delete count_rows
media_deleted-ok = refl

delete_attachment_example :
    (a : Attachment) × (find_row (λ r. r.id == 40) sample_db.attachments ≡ some a)
    × ((a.owner_id ≡ 1) ⊎ (is_moderator [] ≡ true))
    × (any_row (λ r. r.id == 40) (final media_deleted).db.attachments ≡ false)
    × (any_row (λ k. text_eq k a.storage_key) (final media_deleted).bucket ≡ false)
delete_attachment_example =
    Media.delete_attachment-eq-ok 40 1 [] sample tt (final media_deleted) media_deleted-ok
