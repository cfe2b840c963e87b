-- ===== src/Access/Reads.antt =====
-- The lookups of the services read backwards from success.
use masonic_core.Prelude.{
  ℕ, ◌≡◌, refl, ap, ◌∙◌, ◌⊎◌, inl, inr, Bool, true, false, ◌&&◌, not, Option, none, some, List, [],
  ◌∷◌, arith, ◌==◌, ==_iff, Bool-cases, find_row, any_row, keep_rows,
}
use masonic_core.Models.{Group, Thread, ThreadSummary, Post, PostSummary, Attachment}
use masonic_core.World.{
  Database, World, Error, ok, M, raise, resume, ◌>>=◌, next, Stamp, stamp, rows, statement,
}
use masonic_core.Store.Cascade.{delete_threads, delete_posts}
use masonic_core.Store.Group
use masonic_core.Store.Thread
use masonic_core.Store.Post
use masonic_core.Store.Attachment
use masonic_core.World.Rules.{continue-eq-ok, resume-eq-ok, read-eq-ok}

-- A lookup that succeeds has found the row, and changes nothing.
module _ {ℓ} {A : Type ℓ} where
  pub found-eq-ok :
      (f : Stamp → Database → Option A) (scan : Option A → M A) (w : World) (a : A) (w' : World)
      → ((o : Option A) (v : World) → scan o v ≡ ok a w' → (o ≡ some a) × (w' ≡ v))
      → (statement (λ st d. rows (f st d) d) >>= scan) w ≡ ok a w'
      → (f (stamp w) w.db ≡ some a) × (w' ≡ next w)
  found-eq-ok f scan w a w' k h =
      let (o, v, e, g) = continue-eq-ok (statement (λ st d. rows (f st d) d) w) scan a w' h in
      let (same, after_read) = read-eq-ok f w o v e in
      let (is, last) = k o v g in (same ∙ is, last ∙ after_read)

pub scan_thread-eq-ok :
    (t : Thread) (w' : World) (o : Option Thread) (v : World)
    → Thread.scan_thread o v ≡ ok t w'
    → (o ≡ some t) × (w' ≡ v)
unfolding Thread.scan_thread
scan_thread-eq-ok t w' none v h = cc
scan_thread-eq-ok t w' (some s) v h = (cc, cc)

pub scan_post-eq-ok :
    (t : Post) (w' : World) (o : Option Post) (v : World)
    → Post.scan_post o v ≡ ok t w'
    → (o ≡ some t) × (w' ≡ v)
unfolding Post.scan_post
scan_post-eq-ok t w' none v h = cc
scan_post-eq-ok t w' (some s) v h = (cc, cc)

scan_attachment-eq-ok :
    (t : Attachment) (w' : World) (o : Option Attachment) (v : World)
    → Attachment.scan_attachment o v ≡ ok t w'
    → (o ≡ some t) × (w' ≡ v)
unfolding Attachment.scan_attachment
scan_attachment-eq-ok t w' none v h = cc
scan_attachment-eq-ok t w' (some s) v h = (cc, cc)

scan_group-eq-ok :
    (t : Group) (w' : World) (o : Option Group) (v : World)
    → Group.scan_group o v ≡ ok t w'
    → (o ≡ some t) × (w' ≡ v)
unfolding Group.scan_group
scan_group-eq-ok t w' none v h = cc
scan_group-eq-ok t w' (some s) v h = (cc, cc)

scan_summary-eq-ok :
    (t : ThreadSummary) (w' : World) (o : Option ThreadSummary) (v : World)
    → Thread.scan_thread_summary o v ≡ ok t w'
    → (o ≡ some t) × (w' ≡ v)
unfolding Thread.scan_thread_summary
scan_summary-eq-ok t w' none v h = cc
scan_summary-eq-ok t w' (some s) v h = (cc, cc)

scan_post_summary-eq-ok :
    (t : PostSummary) (w' : World) (o : Option PostSummary) (v : World)
    → Post.scan_post_summary o v ≡ ok t w'
    → (o ≡ some t) × (w' ≡ v)
unfolding Post.scan_post_summary
scan_post_summary-eq-ok t w' none v h = cc
scan_post_summary-eq-ok t w' (some s) v h = (cc, cc)

-- The lookups with the error translated, as the services make them.
pub thread-eq-ok :
    (id : ℕ) (g : Error → Error) (w : World) (t : Thread) (w' : World)
    → resume (λ e. raise (g e)) (Thread.get_by_id id w) ≡ ok t w'
    → (find_row (λ r. r.id == id) w.db.threads ≡ some t) × (w' ≡ next w)
unfolding Thread.get_by_id Thread.select_thread
thread-eq-ok id g w t w' h =
    found-eq-ok _ Thread.scan_thread w t w' (scan_thread-eq-ok t w') (resume-eq-ok _ g t w' h)

pub post-eq-ok :
    (id : ℕ) (g : Error → Error) (w : World) (t : Post) (w' : World)
    → resume (λ e. raise (g e)) (Post.get_by_id id w) ≡ ok t w'
    → (find_row (λ r. r.id == id) w.db.posts ≡ some t) × (w' ≡ next w)
unfolding Post.get_by_id Post.select_post
post-eq-ok id g w t w' h =
    found-eq-ok _ Post.scan_post w t w' (scan_post-eq-ok t w') (resume-eq-ok _ g t w' h)

pub attachment-eq-ok :
    (id : ℕ) (g : Error → Error) (w : World) (t : Attachment) (w' : World)
    → resume (λ e. raise (g e)) (Attachment.get_by_id id w) ≡ ok t w'
    → (find_row (λ r. r.id == id) w.db.attachments ≡ some t) × (w' ≡ next w)
unfolding Attachment.get_by_id Attachment.select_attachment
attachment-eq-ok id g w t w' h =
    found-eq-ok _ Attachment.scan_attachment w t w' (scan_attachment-eq-ok t w')
      (resume-eq-ok _ g t w' h)

pub group-eq-ok :
    (id : ℕ) (g : Error → Error) (w : World) (t : Group) (w' : World)
    → resume (λ e. raise (g e)) (Group.get_by_id id w) ≡ ok t w'
    → (find_row (λ r. r.id == id) w.db.groups ≡ some t) × (w' ≡ next w)
unfolding Group.get_by_id Group.select_group
group-eq-ok id g w t w' h =
    found-eq-ok _ Group.scan_group w t w' (scan_group-eq-ok t w') (resume-eq-ok _ g t w' h)

-- A test on who is calling that lets the call pass.
pub allowed :
    (a b : ℕ) (moderator : Bool)
    → (not (a == b) && not moderator) ≡ false
    → (a ≡ b) ⊎ (moderator ≡ true)
allowed a b true h = inr refl
allowed a b false h = elim (Bool-cases (a == b)) [
  | inl e ↦ inl ((==_iff a b).0 e)
  | inr e ↦ ground arith
]

pub any-keep_none {ℓ} :
    {A : Type ℓ} (p : A → Bool) (xs : List A) → any_row p (keep_rows (λ x. not (p x)) xs) ≡ false
unfolding any_row keep_rows
any-keep_none p [] = refl
any-keep_none p (x ∷ xs) = ground (arith, any-keep_none p xs)

pub any-keep_out {ℓ} :
    {A : Type ℓ} (q p : A → Bool)
    → ((x : A) → q x ≡ true → p x ≡ true)
    → (xs : List A) → any_row q (keep_rows (λ x. not (p x)) xs) ≡ false
unfolding any_row keep_rows
any-keep_out q p h [] = refl
any-keep_out q p h (x ∷ xs) = ground (arith, h x, any-keep_out q p h xs)

pub delete_threads-groups :
    (p : Thread → Bool) (d : Database) → (delete_threads p d).groups ≡ d.groups
unfolding delete_threads delete_posts
delete_threads-groups p d = refl

-- The summary that ends a call changes nothing.
pub thread_summary-eq-ok :
    (id : ℕ) (w : World) (x : ThreadSummary) (w' : World)
    → Thread.summary_by_id id w ≡ ok x w'
    → w'.db ≡ w.db
unfolding Thread.summary_by_id Thread.select_summary
thread_summary-eq-ok id w x w' h =
    ap (λ (u : World). u.db)
      (found-eq-ok _ Thread.scan_thread_summary w x w' (scan_summary-eq-ok x w') h).1

pub post_summary-eq-ok :
    (id : ℕ) (w : World) (x : PostSummary) (w' : World)
    → Post.summary_by_id id w ≡ ok x w'
    → w'.db ≡ w.db
unfolding Post.summary_by_id Post.select_summary
post_summary-eq-ok id w x w' h =
    ap (λ (u : World). u.db)
      (found-eq-ok _ Post.scan_post_summary w x w' (scan_post_summary-eq-ok x w') h).1

pub not-false : (b : Bool) → not b ≡ false → b ≡ true
not-false true h = refl
not-false false h = cc

-- A caller who is not refused as another than the author.
pub is_author : (a b : ℕ) → not (a == b) ≡ false → a ≡ b
is_author a b h = (==_iff a b).0 (not-false (a == b) h)
