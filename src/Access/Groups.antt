-- ===== src/Access/Groups.antt =====
-- When a group may be deleted.
use masonic_core.Prelude.{
  ℕ, ◌≡◌, refl, sym, ap, ◌∙◌, Bool, true, false, ◌&&◌, not, List, [], ◌∷◌, map, arith, ltb, ◌==◌,
  any_row, keep_rows, count_rows,
}
use masonic_core.Models.{Group, Thread}
use masonic_core.World.{Database, World, row_not_found, not_empty, ok}
use masonic_core.Store.Cascade.{
  has_group, delete_group, forget_parent, delete_threads, delete_posts,
}
use masonic_core.Store.Group
use masonic_core.Store.Thread
use masonic_core.Services.Group as GroupService
use masonic_core.World.Rules.{
  continue-eq-ok, resume-eq-ok, refuse_if-eq-ok, statement-eq-ok, read-eq-ok,
}
use masonic_core.Access.Reads.{group-eq-ok}

delete_row-eq-ok :
    (id : ℕ) (w : World) (x : Unit {0}) (w' : World)
    → Group.delete id w ≡ ok x w'
    → w'.db ≡ delete_group id w.db
unfolding Group.delete Group.delete_row
delete_row-eq-ok id w x w' h =
    let (n, v, e, g) = continue-eq-ok _ _ x w' h in
    let (d, q, same) = statement-eq-ok (Group.delete_row id) w n v e in
    let (_, last) = refuse_if-eq-ok (n == 0) row_not_found v x w' g in
    let moved : delete_group id w.db ≡ d = cc in ap (λ (u : World). u.db) (last ∙ same) ∙ sym moved

-- A count of zero is a table in which nothing is found.
keep_out :
    (id : ℕ) (ts : List Thread)
    → count_rows (λ t. t.group_id == id) ts ≡ 0
    → keep_rows (λ t. not (t.group_id == id)) ts ≡ ts
unfolding keep_rows count_rows
keep_out id [] h = refl
keep_out id (t ∷ ts) h = ground (arith, keep_out id ts)

count-none :
    (id k : ℕ) (ts : List Thread)
    → count_rows (λ t. t.group_id == id) ts ≡ 0
    → any_row (λ t. t.group_id == id && t.id == k) ts ≡ false
unfolding any_row count_rows
count-none id k [] h = refl
count-none id k (t ∷ ts) h = ground (arith, count-none id k ts)

keep-all {ℓ} :
    {A : Type ℓ} (p : A → Bool) → ((x : A) → p x ≡ true) → (xs : List A) → keep_rows p xs ≡ xs
unfolding keep_rows
keep-all p h [] = refl
keep-all p h (x ∷ xs) = ground (arith, h x, keep-all p h xs)

-- Without threads in the group, the cascade takes no thread and no post.
cascade-none :
    (id : ℕ) (d : Database)
    → count_rows (λ t. t.group_id == id) d.threads ≡ 0
    → ((delete_group id d).threads ≡ d.threads) × ((delete_group id d).posts ≡ d.posts)
unfolding delete_group delete_threads delete_posts
cascade-none id d h = (
  keep_out id d.threads h,
  keep-all _ (λ q. rw (count-none id q.thread_id d.threads h) refl) d.posts,
)

delete_group-has_group :
    (id : ℕ) (gs : List Group)
    → any_row (λ g. g.id == id) (map (forget_parent id) (keep_rows (λ g. not (g.id == id)) gs))
      ≡ false
unfolding any_row keep_rows forget_parent
delete_group-has_group id [] = refl
delete_group-has_group id (g ∷ gs) = ground (arith, delete_group-has_group id gs)

positive : (n : ℕ) → ltb 0 n ≡ false → n ≡ 0
positive n h = ground arith

-- A group that a call of the service deleted had no thread in it, so that the deletion, which would
-- take the threads of the group and their posts along, leaves all threads and all posts as they
-- were; the group is gone.
pub delete_group-eq-ok :
    (id : ℕ) (w : World) (x : Unit {0}) (w' : World)
    → GroupService.delete id w ≡ ok x w'
    → (has_group id w'.db ≡ false) × (w'.db.threads ≡ w.db.threads) × (w'.db.posts ≡ w.db.posts)
unfolding GroupService.delete Thread.count_by_group Thread.count_threads has_group delete_group
delete_group-eq-ok id w x w' h =
    let (t, v, e, g) = continue-eq-ok _ _ x w' h in
    let (is, read) = group-eq-ok id _ w t v e in
    let (n, v2, e2, g2) = continue-eq-ok _ _ x w' g in
    let (count, read2) =
      read-eq-ok (λ st d. count_rows (λ (t : Thread). t.group_id == id) d.threads) v n v2 e2 in
    let (_, v3, e3, g3) = continue-eq-ok _ _ x w' g2 in
    let (few, same) = refuse_if-eq-ok _ not_empty v2 _ v3 e3 in
    let gone = delete_row-eq-ok id v3 x w' (resume-eq-ok _ _ x w' g3) in
    let here : v.db ≡ w.db = ap (λ (u : World). u.db) read in
    let there : v3.db ≡ v.db = ap (λ (u : World). u.db) (same ∙ read2) in
    let left : w'.db ≡ delete_group id w.db = gone ∙ ap (delete_group id) (there ∙ here) in
    let zero_threads : count_rows (λ t. t.group_id == id) w.db.threads ≡ 0 =
      ap (λ (d : Database). count_rows (λ (t : Thread). t.group_id == id) d.threads) (sym here)
      ∙ count
      ∙ positive n few in
    let (threads, posts) = cascade-none id w.db zero_threads in
    (
      ap (λ (d : Database). any_row (λ g. g.id == id) d.groups) left
          ∙ delete_group-has_group id w.db.groups,
      ap (λ (d : Database). d.threads) left ∙ threads,
      ap (λ (d : Database). d.posts) left ∙ posts,
    )
