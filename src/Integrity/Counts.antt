-- ===== src/Integrity/Counts.antt =====
-- The post counts that the threads keep agree with the posts.
use masonic_core.Prelude.{
  ◌+◌, if◌then◌else◌, ℕ, ◌≡◌, sym, ap, ◌∙◌, subst, true, false, none, some, List, ◌∷◌, arith, ◌==◌,
  find_row, count_rows, update_rows, All, All-update,
}
use masonic_core.Text.{Text}
use masonic_core.Models.{Thread, Post, PostSummary, NewPost}
use masonic_core.World.{
  rows, Database, World, invalid_input, thread_locked, ok, Stamp, stamp, statement,
}
use masonic_core.Store.Post
use masonic_core.Store.Post.{insert_post}
use masonic_core.Store.Thread
use masonic_core.Store.Thread.{insert_thread, bumped, posts_full}
use masonic_core.Services.Thread.{is_body}
use masonic_core.Services.Post as PostService
use masonic_core.Integrity.Threads.{update_thread-eq-rows}
use masonic_core.World.Rules.{ok-inj, continue-eq-ok, refuse_if-eq-ok, statement-eq-ok}
use masonic_core.Access.Reads.{thread-eq-ok, post_summary-eq-ok, not-false}

-- Every thread has as its post count the number of its posts.
abbrev pub AllCounted : List Post → List Thread → Type 0
AllCounted ps ts = All (λ t. t.post_count ≡ count_rows (λ p. p.thread_id == t.id) ps) ts

-- One more post of a thread, and one more in its count.
bump-AllCounted :
    (p : Post) (ps : List Post) (at : ℕ) (st : Stamp) (ts : List Thread)
    → AllCounted ps ts
    → AllCounted (p ∷ ps) (update_rows (λ t. t.id == p.thread_id) (bumped at st) ts)
unfolding bumped count_rows
bump-AllCounted p ps at st ts h =
    All-update _ _ (λ t. t.id == p.thread_id) (bumped at st) (λ (t : Thread) e. ground arith) ts h

bump-eq-ok :
    (id at : ℕ) (w : World) (x : Unit {0}) (w' : World)
    → Thread.bump_post id at w ≡ ok x w'
    → w'.db
      ≡ record w.db { threads = update_rows (λ t. t.id == id) (bumped at (stamp w)) w.db.threads }
unfolding Thread.bump_post
bump-eq-ok id at w x w' h =
    let (o, v, e, g) = continue-eq-ok _ _ x w' h in
    let (d, q, same) = statement-eq-ok (Thread.update_thread id posts_full (bumped at)) w o v e in
    sym (ap (λ (u : World). u.db) (ok-inj tt x v w' g).1)
    ∙ ap (λ (u : World). u.db) same
    ∙ update_thread-eq-rows id posts_full (bumped at) (stamp w) w.db o d q

inserted :
    (np : NewPost) (st : Stamp) (d : Database) (p : Post) (d' : Database)
    → insert_post np st d ≡ rows p d'
    → (d' ≡ record d { posts = p ∷ d.posts }) × (p ≡ Post.new_row st np)
unfolding insert_post
inserted np st d p d' e = ground arith

one_more :
    (p : Post) (ps : List Post) (time at : ℕ) (t : Thread)
    → t.post_count ≡ count_rows (λ q. q.thread_id == t.id) ps
    → (if t.id == p.thread_id
        then record t { post_count = t.post_count + 1; last_post_at = some time; updated_at = at }
        else t).post_count
      ≡ count_rows
          (λ q.
            q.thread_id
            == (if t.id == p.thread_id
                then record t {
                  post_count = t.post_count + 1;
                  last_post_at = some time;
                  updated_at = at;
                }
                else t).id)
          (p ∷ ps)
unfolding count_rows
one_more p ps time at t e = ground arith

-- Insert and count in one go.
add_post-eq-ok :
    (np : NewPost) (w v : World) (p : Post) (x : Unit {0}) (w' : World)
    → statement (insert_post np) w ≡ ok p v
    → Thread.bump_post np.thread_id p.created_at v ≡ ok x w'
    → (p ≡ Post.new_row (stamp w) np)
      × (w'.db ≡ record w.db {
        posts = p ∷ w.db.posts;
        threads =
            update_rows (λ t. t.id == np.thread_id) (bumped p.created_at (stamp v)) w.db.threads;
      })
add_post-eq-ok np w v p x w' e g =
    let (d, q, same) = statement-eq-ok (insert_post np) w p v e in
    let (grown, is) = inserted np (stamp w) w.db p d q in
    let there : v.db ≡ record w.db { posts = p ∷ w.db.posts } =
      ap (λ (u : World). u.db) same ∙ grown in
    let left = bump-eq-ok np.thread_id p.created_at v x w' g in
    (
      is,
      left
          ∙ ap
              (λ (b : Database). record b {
                threads =
                    update_rows (λ t. t.id == np.thread_id) (bumped p.created_at (stamp v))
                      b.threads;
              })
              there,
    )

pub add_post-AllCounted :
    (np : NewPost) (w v : World) (p : Post) (x : Unit {0}) (w' : World)
    → statement (insert_post np) w ≡ ok p v
    → Thread.bump_post np.thread_id p.created_at v ≡ ok x w'
    → AllCounted w.db.posts w.db.threads
    → AllCounted w'.db.posts w'.db.threads
unfolding Post.new_row
add_post-AllCounted np w v p x w' e g h =
    let (is, all) = add_post-eq-ok np w v p x w' e g in
    let thread : p.thread_id ≡ np.thread_id = ap (λ (p : Post). p.thread_id) is in
    subst (λ (b : Database). AllCounted b.posts b.threads) (sym all)
      (subst
        (λ (k : ℕ).
          AllCounted (p ∷ w.db.posts)
            (update_rows (λ t. t.id == k) (bumped p.created_at (stamp v)) w.db.threads))
        thread (bump-AllCounted p w.db.posts p.created_at (stamp v) w.db.threads h))

-- A post that a call of the service wrote is in a thread that was there and is not locked, and its
-- body is valid. It is stored in front of the posts, with this thread, author and body and not
-- edited; the thread counts one post more, with the time of the post as that of its last post, and
-- has a new time of change; nothing else in the tables is touched.
pub create_post-eq-ok :
    (thread_id author_id : ℕ) (body : Text) (w : World) (x : PostSummary) (w' : World)
    → PostService.create thread_id author_id body w ≡ ok x w'
    → ((t : Thread) × (find_row (λ r. r.id == thread_id) w.db.threads ≡ some t)
        × (t.locked ≡ false))
      × (is_body body ≡ true)
      × ((p : Post) × (at : ℕ) × (w'.db ≡ record w.db {
        posts = p ∷ w.db.posts;
        threads =
            update_rows
              (λ t. t.id == thread_id)
              (λ t. record t {
                post_count = t.post_count + 1;
                last_post_at = some p.created_at;
                updated_at = at;
              })
              w.db.threads;
      })
          × (p.thread_id ≡ thread_id)
          × (p.author_id ≡ author_id)
          × (p.body ≡ body)
          × (p.edited_at ≡ none))
unfolding PostService.create Post.create Post.new_row bumped
create_post-eq-ok thread_id author_id body w x w' h =
    let (t, v, e, g) = continue-eq-ok _ _ x w' h in
    let (is, read) = thread-eq-ok thread_id _ w t v e in
    let (_, v2, e2, g2) = continue-eq-ok _ _ x w' g in
    let (free, same) = refuse_if-eq-ok _ thread_locked v _ v2 e2 in
    let (_, v3, e3, g3) = continue-eq-ok _ _ x w' g2 in
    let (good, same3) = refuse_if-eq-ok _ invalid_input v2 _ v3 e3 in
    let (p, v4, e4, g4) = continue-eq-ok _ _ x w' g3 in
    let (u, v5, e5, g5) = continue-eq-ok _ _ x w' g4 in
    let kept = post_summary-eq-ok p.id v5 x w' g5 in
    let np : NewPost = record { thread_id = thread_id; author_id = author_id; body = body } in
    let here : v3.db ≡ w.db = ap (λ (u : World). u.db) (same3 ∙ same ∙ read) in
    let (made, all) = add_post-eq-ok np v3 v4 p u v5 e4 e5 in
    (
      (t, is, free),
      not-false (is_body body) good,
      (
        p,
        (stamp v4).now,
        kept
            ∙ all
            ∙ ap
                (λ (b : Database). record b {
                  posts = p ∷ b.posts;
                  threads =
                      update_rows (λ t. t.id == thread_id) (bumped p.created_at (stamp v4))
                        b.threads;
                })
                here,
        ap (λ (p : Post). p.thread_id) made,
        ap (λ (p : Post). p.author_id) made,
        ap (λ (p : Post). p.body) made,
        ap (λ (p : Post). p.edited_at) made,
      ),
    )

-- If the post counts of all threads were the numbers of their posts before a post that a call of the
-- service wrote, they are after it.
pub create_post-AllCounted :
    (thread_id author_id : ℕ) (body : Text) (w : World) (x : PostSummary) (w' : World)
    → PostService.create thread_id author_id body w ≡ ok x w'
    → AllCounted w.db.posts w.db.threads
    → AllCounted w'.db.posts w'.db.threads
create_post-AllCounted thread_id author_id body w x w' h counted =
    let (_, _, (p, at, left, thread, _, _, _)) =
      create_post-eq-ok thread_id author_id body w x w' h in
    subst (λ (b : Database). AllCounted b.posts b.threads) (sym left)
      (subst
        (λ (k : ℕ). AllCounted (p ∷ w.db.posts) (
          update_rows (λ t. t.id == k)
            (λ t. record t {
              post_count = t.post_count + 1;
              last_post_at = some p.created_at;
              updated_at = at;
            })
            w.db.threads))
        thread
        (All-update _ _ (λ t. t.id == p.thread_id) _
          (λ (t : Thread) e. one_more p w.db.posts p.created_at at t e) w.db.threads counted))
