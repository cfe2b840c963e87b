-- ===== src/Access/Posts.antt =====
-- Who may write, change or delete a post.
use masonic_core.Prelude.{
  ℕ, ◌≡◌, sym, ap, ◌∙◌, subst, ◌⊎◌, inl, inr, true, false, some, List, [], ◌∷◌, arith, ◌==◌, ==_iff,
  Bool-cases, find_row, any_row, count_rows, update_rows, All,
}
use masonic_core.Text.{Text}
use masonic_core.Models.{Thread, Post, PostSummary}
use masonic_core.World.{Database, World, row_not_found, forbidden, invalid_input, ok, Stamp, stamp}
use masonic_core.Store.Cascade.{has_post, delete_posts}
use masonic_core.Store.Post
use masonic_core.Store.Post.{insert_post}
use masonic_core.Store.Thread
use masonic_core.Services.Roles.{is_moderator}
use masonic_core.Services.Thread.{is_body}
use masonic_core.Services.Post as PostService
use masonic_core.Integrity.Threads.{update_thread-eq-rows}
use masonic_core.Integrity.Posts.{update_post-eq-rows}
use masonic_core.World.Rules.{
  ok-inj, continue-eq-ok, resume-eq-ok, refuse_if-eq-ok, statement-eq-ok,
}
use masonic_core.Access.Reads.{
  is_author, not-false, post-eq-ok, scan_post-eq-ok, post_summary-eq-ok, allowed, any-keep_none,
}

update_row-eq-ok :
    (id : ℕ) (body : Text) (editor : ℕ) (w : World) (p : Post) (w' : World)
    → Post.update_body id body editor w ≡ ok p w'
    → w'.db ≡ record w.db {
      posts = update_rows (λ r. r.id == id) (Post.edited body editor (stamp w)) w.db.posts;
    }
unfolding Post.update_body
update_row-eq-ok id body editor w p w' h =
    let (o, v, e, g) = continue-eq-ok _ _ p w' h in
    let (d, q, same) = statement-eq-ok (Post.update_post id body editor) w o v e in
    let (_, last) = scan_post-eq-ok p w' o v g in
    ap (λ (u : World). u.db) (last ∙ same) ∙ update_post-eq-rows id body editor (stamp w) w.db o d q

-- A post that a call of the service changed was there, and the caller is its author; no role stands
-- in for that. The new body is valid, and the call wrote to that post the body, the author as its
-- editor, and one time as the time of the edit and of the last change, and nothing else.
pub update_post-eq-ok :
    (id author_id : ℕ) (body : Text) (w : World) (x : PostSummary) (w' : World)
    → PostService.update id author_id body w ≡ ok x w'
    → (p : Post) × (at : ℕ) × (find_row (λ r. r.id == id) w.db.posts ≡ some p)
      × (p.author_id ≡ author_id)
      × (is_body body ≡ true)
      × (w'.db ≡ record w.db {
        posts =
            update_rows
              (λ r. r.id == id)
              (λ r. record r {
                body = body;
                edited_by_id = some author_id;
                edited_at = some at;
                updated_at = at;
              })
              w.db.posts;
      })
unfolding PostService.update Post.edited
update_post-eq-ok id author_id body w x w' h =
    let (p, v, e, g) = continue-eq-ok _ _ x w' h in
    let (is, read) = post-eq-ok id _ w p v e in
    let (_, v2, e2, g2) = continue-eq-ok _ _ x w' g in
    let (may, same) = refuse_if-eq-ok _ forbidden v _ v2 e2 in
    let (_, v3, e3, g3) = continue-eq-ok _ _ x w' g2 in
    let (good, same3) = refuse_if-eq-ok _ invalid_input v2 _ v3 e3 in
    let (q, v4, e4, g4) = continue-eq-ok _ _ x w' g3 in
    let wrote = update_row-eq-ok id body author_id v3 q v4 (resume-eq-ok _ _ q v4 e4) in
    let kept = post_summary-eq-ok id v4 x w' g4 in
    let here : v3.db ≡ w.db = ap (λ (u : World). u.db) (same3 ∙ same ∙ read) in
    (
      p,
      (stamp v3).now,
      is,
      is_author p.author_id author_id may,
      not-false (is_body body) good,
      kept
          ∙ wrote
          ∙ ap
              (λ (d : Database). record d {
                posts =
                    update_rows (λ r. r.id == id) (Post.edited body author_id (stamp v3)) d.posts;
              })
              here,
    )

delete_row-eq-ok :
    (id : ℕ) (w : World) (x : Unit {0}) (w' : World)
    → Post.delete id w ≡ ok x w'
    → w'.db ≡ delete_posts (λ p. p.id == id) w.db
unfolding Post.delete Post.delete_row
delete_row-eq-ok id w x w' h =
    let (n, v, e, g) = continue-eq-ok _ _ x w' h in
    let (d, q, same) = statement-eq-ok (Post.delete_row id) w n v e in
    let (_, last) = refuse_if-eq-ok (n == 0) row_not_found v x w' g in
    let moved : delete_posts (λ p. p.id == id) w.db ≡ d = cc in
    ap (λ (u : World). u.db) (last ∙ same) ∙ sym moved

-- RecalcStats writes what it computes from the posts.
recalc-eq-ok :
    (id : ℕ) (w : World) (x : Unit {0}) (w' : World)
    → Thread.recalc_stats id w ≡ ok x w'
    → w'.db ≡ record w.db {
      threads = update_rows (λ t. t.id == id) (Thread.recalculated w.db (stamp w)) w.db.threads;
    }
unfolding Thread.recalc_stats Thread.recalc
recalc-eq-ok id w x w' h =
    let (o, v, e, g) = continue-eq-ok _ _ x w' h in
    let (d, q, same) = statement-eq-ok (Thread.recalc id) w o v e in
    sym (ap (λ (u : World). u.db) (ok-inj tt x v w' g).1)
    ∙ ap (λ (u : World). u.db) same
    ∙ update_thread-eq-rows id _ (Thread.recalculated w.db) (stamp w) w.db o d q

delete_posts-has_post :
    (id : ℕ) (d : Database) → has_post id (delete_posts (λ p. p.id == id) d) ≡ false
unfolding has_post delete_posts
delete_posts-has_post id d = any-keep_none (λ p. p.id == id) d.posts

-- The post count of a thread is the number of posts in it.
abbrev pub IsCounted : ℕ → Database → Type 0
IsCounted id d =
    All (λ t. (t.id ≡ id) → t.post_count ≡ count_rows (λ q. q.thread_id == id) d.posts) d.threads

recalculated-counts :
    (id : ℕ) (b : Database) (st : Stamp) (ts : List Thread)
    → All
        (λ t. (t.id ≡ id) → t.post_count ≡ count_rows (λ q. q.thread_id == id) b.posts)
        (update_rows (λ t. t.id == id) (Thread.recalculated b st) ts)
unfolding update_rows Thread.recalculated
recalculated-counts id b st [] = tt
recalculated-counts id b st (t ∷ ts) = elim (Bool-cases (t.id == id)) [
  | inl e ↦ rw e (
    λ same. ap (λ (k : ℕ). count_rows (λ q. q.thread_id == k) b.posts) same,
    recalculated-counts id b st ts,
  )
  | inr e ↦ rw e (λ same. ground (arith, ==_iff t.id id), recalculated-counts id b st ts)
]

-- A post that a call of the service deleted was there, and the caller is its author or a moderator.
-- It is gone, and the thread that it was in has as its post count the number of posts left in it,
-- whatever the count was before.
pub delete_post-eq-ok :
    (id caller_id : ℕ) (roles : List Text) (w : World) (x : Unit {0}) (w' : World)
    → PostService.delete id caller_id roles w ≡ ok x w'
    → (p : Post) × (find_row (λ r. r.id == id) w.db.posts ≡ some p)
      × ((p.author_id ≡ caller_id) ⊎ (is_moderator roles ≡ true))
      × (has_post id w'.db ≡ false)
      × IsCounted p.thread_id w'.db
unfolding PostService.delete has_post
delete_post-eq-ok id caller_id roles w x w' h =
    let (p, v, e, g) = continue-eq-ok _ _ x w' h in
    let (is, read) = post-eq-ok id _ w p v e in
    let (_, v2, e2, g2) = continue-eq-ok _ _ x w' g in
    let (may, same) = refuse_if-eq-ok _ forbidden v _ v2 e2 in
    let (u, v3, e3, g3) = continue-eq-ok _ _ x w' g2 in
    let gone = delete_row-eq-ok id v2 u v3 (resume-eq-ok _ _ u v3 e3) in
    let wrote = recalc-eq-ok p.thread_id v3 x w' g3 in
    (
      p,
      is,
      allowed p.author_id caller_id (is_moderator roles) may,
      ap (λ (d : Database). any_row (λ r. r.id == id) d.posts) wrote
          ∙ ap (λ (d : Database). any_row (λ r. r.id == id) d.posts) gone
          ∙ delete_posts-has_post id v2.db,
      subst (IsCounted p.thread_id) (sym wrote)
          (recalculated-counts p.thread_id v3.db (stamp v3) v3.db.threads),
    )
