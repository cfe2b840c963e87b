-- ===== src/Examples/Integrity.antt =====
-- The invariants at concrete tables.
use masonic_core.Prelude.{ℕ, ◌+◌, update_rows}
use masonic_core.Integrity.Counts.{create_post-eq-ok}
use masonic_core.Prelude.{none}
use masonic_core.Models.{Post}
use masonic_core.Prelude.{
  ◌≡◌, refl, true, false, some, [], ◌∷◌, ◌==◌, find_row, any_row, count_rows,
}
use masonic_core.Text.{Text, text, text_eq, text_eq_iff, to_lower, has_prefix, has_byte, is_listed}
use masonic_core.Models.{Thread, PostSummary}
use masonic_core.World.{Outcome, ok, final, statement}
use masonic_core.Store.Cascade.{has_group, has_thread, has_post}
use masonic_core.Services.Thread.{CreateThreadInput}
use masonic_core.Services.Post as PostService
use masonic_core.Store.Thread
use masonic_core.Store.Post
use masonic_core.Integrity.{HasRefs}
use masonic_core.Integrity.Counts.{AllCounted, create_post-AllCounted}
use masonic_core.Integrity.Creation.{IsConsistent, create_thread-IsConsistent}
use masonic_core.Services.Thread as ThreadService
use masonic_core.Services.Thread.{is_body}
use masonic_core.Examples.Data.{sample, sample_db, hello, first_post, value_or}

pub sample-HasRefs : HasRefs sample_db
unfolding has_group has_thread has_post any_row
sample-HasRefs = record {
  groups = (refl, (refl, tt));
  threads = (refl, tt);
  posts = (refl, tt);
  attachments = (refl, tt);
}

sample-AllCounted : AllCounted (first_post ∷ []) (hello ∷ [])
unfolding count_rows
sample-AllCounted = (refl, tt)

abbrev input : CreateThreadInput
input = record { group_id = 10; author_id = 1; title = text "New"; body = text "Body" }

create_thread-IsConsistent_example : IsConsistent (final (ThreadService.create input sample)).db
create_thread-IsConsistent_example =
    create_thread-IsConsistent input sample (sample-HasRefs, sample-AllCounted)

abbrev posted : Outcome PostSummary
posted = PostService.create 20 1 (text "Yes") sample

abbrev no_summary : PostSummary
no_summary = record { post = first_post; author_username = []; author_display = [] }

posted-ok : posted ≡ ok (value_or no_summary posted) (final posted)
unfolding PostService.create Thread.get_by_id Thread.select_thread Thread.scan_thread statement
    find_row ThreadService.is_body masonic_core.Text.Space.trim_space
    masonic_core.Text.Runes.rune_count Post.create any_row has_thread
    masonic_core.Store.Cascade.has_user Thread.bump_post Post.summary_by_id
posted-ok = refl

create_post-eq-ok_example :
    ((t : Thread) × (find_row (λ r. r.id == 20) sample_db.threads ≡ some t) × (t.locked ≡ false))
    × (is_body (text "Yes") ≡ true)
    × ((p : Post) × (at : ℕ) × ((final posted).db ≡ record sample_db {
      posts = p ∷ sample_db.posts;
      threads =
          update_rows
            (λ t. t.id == 20)
            (λ t. record t {
              post_count = t.post_count + 1;
              last_post_at = some p.created_at;
              updated_at = at;
            })
            sample_db.threads;
    })
        × (p.thread_id ≡ 20)
        × (p.author_id ≡ 1)
        × (p.body ≡ text "Yes")
        × (p.edited_at ≡ none))
create_post-eq-ok_example =
    create_post-eq-ok 20 1 (text "Yes") sample (value_or no_summary posted) (final posted) posted-ok

create_post-AllCounted_example : AllCounted (final posted).db.posts (final posted).db.threads
create_post-AllCounted_example =
    create_post-AllCounted 20 1 (text "Yes") sample (value_or no_summary posted) (final posted)
      posted-ok sample-AllCounted
