-- ===== src/Integrity/Threads.antt =====
-- The statements on threads keep the references.
use masonic_core.Prelude.{
  ℕ, ◌≡◌, refl, ap, ◌∙◌, subst, Bool, true, false, ◌&&◌, not, Option, ◌∷◌, arith, ◌==◌, any_row,
  update_rows, All-update, All-imp, All-keep, any-update, any-keep_not,
}
use masonic_core.Text.{Text}
use masonic_core.Models.{Thread, NewThread, Post}
use masonic_core.World.{Database, Stamp, rows}
use masonic_core.Store.Cascade.{has_group, has_thread, has_post, delete_posts, delete_threads}
use masonic_core.Store.Thread.{insert_thread, update_thread, bumped, recalc, recalculated}
use masonic_core.Store.Thread
use masonic_core.World.Rules.{KeepsSql}
use masonic_core.Integrity.{HasRefs}
use masonic_core.Integrity.Posts.{delete_posts-HasRefs}

pub insert_thread-eq-rows :
    (nt : NewThread) (st : Stamp) (d : Database) (t : Thread) (d' : Database)
    → insert_thread nt st d ≡ rows t d'
    → (d' ≡ record d { threads = t ∷ d.threads })
      × (t.group_id ≡ nt.group_id)
      × (has_group nt.group_id d ≡ true)
      × (has_thread t.id d ≡ false)
      × (t.post_count ≡ 0)
unfolding insert_thread has_thread
insert_thread-eq-rows nt st d t d' e = ground arith

-- A new thread is one more that posts may be in.
has_thread-cons :
    (t : Thread) (d : Database) (id : ℕ)
    → has_thread id d ≡ true
    → has_thread id (record d { threads = t ∷ d.threads }) ≡ true
unfolding has_thread any_row
has_thread-cons t d id h = ground arith

pub insert_thread-HasRefs : (nt : NewThread) → KeepsSql HasRefs (insert_thread nt)
unfolding has_group has_post
insert_thread-HasRefs nt = record {
  at = λ st d t d' e r.
      let (same, group, there, _, _) = insert_thread-eq-rows nt st d t d' e in
      rw same (record {
        groups = r.groups;
        threads = (rw group there, r.threads);
        posts = All-imp _ _ (λ (p : Post). has_thread-cons t d p.thread_id) d.posts r.posts;
        attachments = r.attachments;
      });
}

pub update_thread-eq-rows :
    (id : ℕ) (overflows : Thread → Bool) (f : Stamp → Thread → Thread) (st : Stamp) (d : Database)
    (o : Option Thread) (d' : Database)
    → update_thread id overflows f st d ≡ rows o d'
    → d' ≡ record d { threads = update_rows (λ t. t.id == id) (f st) d.threads }
unfolding update_thread
update_thread-eq-rows id overflows f st d o d' e = ground arith

-- An update of a thread's columns leaves its identifier and its group.
pub record IsLocal (f : Thread → Thread) : Type 0 where
  pub same_id : (t : Thread) → (f t).id ≡ t.id
  pub same_group : (t : Thread) → (f t).group_id ≡ t.group_id

has_thread-update :
    (k id : ℕ) (f : Thread → Thread) (d : Database)
    → IsLocal f
    → has_thread k d ≡ true
    → has_thread k (record d { threads = update_rows (λ t. t.id == id) f d.threads }) ≡ true
unfolding has_thread
has_thread-update k id f d l h =
    any-update (λ t. t.id == k) (λ t. t.id == id) f (λ t. ap (λ (i : ℕ). i == k) (l.same_id t))
      d.threads
    ∙ h

pub update_thread-HasRefs :
    (id : ℕ) (overflows : Thread → Bool) (f : Stamp → Thread → Thread)
    → ((st : Stamp) → IsLocal (f st))
    → KeepsSql HasRefs (update_thread id overflows f)
unfolding has_group has_post
update_thread-HasRefs id overflows f l = record {
  at = λ st d o d' e r. rw (update_thread-eq-rows id overflows f st d o d' e) (record {
    groups = r.groups;
    threads =
        All-update (λ (t : Thread). has_group t.group_id d ≡ true)
          (λ (t : Thread). has_group t.group_id d ≡ true) (λ t. t.id == id) (f st)
          (λ t h. ground (arith, (l st).same_group t)) d.threads r.threads;
    posts =
        All-imp _ _ (λ (p : Post). has_thread-update p.thread_id id (f st) d (l st)) d.posts
          r.posts;
    attachments = r.attachments;
  });
}

-- The posts of a deleted thread go, so every other post keeps its thread.
pub delete_threads-HasRefs :
    (p : Thread → Bool) (d : Database) → HasRefs d → HasRefs (delete_threads p d)
unfolding delete_threads has_group has_thread has_post
delete_threads-HasRefs p d r =
    let gone : Post → Bool = λ q. any_row (λ t. p t && t.id == q.thread_id) d.threads in
    let s = delete_posts-HasRefs gone d r in
    record {
      groups = unfold delete_posts in s.groups;
      threads =
          unfold delete_posts in All-keep _ _ (λ t. not (p t)) (λ t e h. h) d.threads r.threads;
      posts =
          unfold delete_posts in
          All-keep _ _ (λ q. not (gone q))
            (λ (q : Post) e h. any-keep_not (λ t. t.id == q.thread_id) p d.threads h (ground arith))
            d.posts r.posts;
      attachments = s.attachments;
    }

pub delete_thread-HasRefs : (id : ℕ) → KeepsSql HasRefs (Thread.delete_row id)
unfolding Thread.delete_row
delete_thread-HasRefs id = record {
  at = λ st d n d' e r.
      let same : delete_threads (λ t. t.id == id) d ≡ d' = cc in
      subst HasRefs same (delete_threads-HasRefs (λ t. t.id == id) d r);
}

bumped-IsLocal : (at : ℕ) (st : Stamp) → IsLocal (bumped at st)
unfolding bumped
bumped-IsLocal at st = record { same_id = λ t. refl; same_group = λ t. refl }

edited-IsLocal :
    (title : Text) (pinned locked : Bool) (st : Stamp)
    → IsLocal (Thread.edited title pinned locked st)
unfolding Thread.edited
edited-IsLocal title pinned locked st = record { same_id = λ t. refl; same_group = λ t. refl }

viewed-IsLocal : (st : Stamp) → IsLocal (Thread.viewed st)
unfolding Thread.viewed
viewed-IsLocal st = record { same_id = λ t. refl; same_group = λ t. refl }

recalculated-IsLocal : (d : Database) (st : Stamp) → IsLocal (recalculated d st)
unfolding recalculated
recalculated-IsLocal d st = record { same_id = λ t. refl; same_group = λ t. refl }

pub bump-HasRefs : (id at : ℕ) → KeepsSql HasRefs (update_thread id Thread.posts_full (bumped at))
bump-HasRefs id at = update_thread-HasRefs id _ (bumped at) (bumped-IsLocal at)

pub edit-HasRefs :
    (id : ℕ) (title : Text) (pinned locked : Bool)
    → KeepsSql HasRefs (update_thread id (λ t. false) (Thread.edited title pinned locked))
edit-HasRefs id title pinned locked =
    update_thread-HasRefs id _ (Thread.edited title pinned locked)
      (edited-IsLocal title pinned locked)

pub view-HasRefs : (id : ℕ) → KeepsSql HasRefs (update_thread id Thread.views_full Thread.viewed)
view-HasRefs id = update_thread-HasRefs id _ Thread.viewed viewed-IsLocal

pub recalc-HasRefs : (id : ℕ) → KeepsSql HasRefs (recalc id)
unfolding recalc
recalc-HasRefs id = record {
  at = λ st d o d' e r.
      (update_thread-HasRefs id _ (recalculated d) (recalculated-IsLocal d)).at st d o d' e r;
}

pub ruleset thread_rules = (
  insert_thread-HasRefs, delete_thread-HasRefs, bump-HasRefs, edit-HasRefs, view-HasRefs,
  recalc-HasRefs,
)
