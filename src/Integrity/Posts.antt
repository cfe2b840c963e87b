-- ===== src/Integrity/Posts.antt =====
-- The statements on posts and attachments keep the references.
use masonic_core.Prelude.{
  ℕ, ◌≡◌, refl, ap, ◌∙◌, subst, inl, inr, Bool, true, ◌&&◌, not, Option, none, some, ◌∷◌, arith,
  ◌==◌, Bool-cases, any_row, keep_rows, update_rows, All-map, All-update, All-imp, All-keep,
  any-update, any-keep_not,
}
use masonic_core.Text.{Text}
use masonic_core.Models.{Post, NewPost, Attachment, NewAttachment}
use masonic_core.World.{Database, Stamp, rows}
use masonic_core.Store.Cascade.{has_group, has_thread, has_post, null_or, forget_post, delete_posts}
use masonic_core.Store.Post.{insert_post, update_post, edited}
use masonic_core.Store.Post
use masonic_core.Store.Attachment
use masonic_core.Store.Attachment.{insert_attachment}
use masonic_core.World.Rules.{KeepsSql}
use masonic_core.Integrity.{HasRefs}

-- What refers to a post still does when there is one more.
null_or-cons :
    (p : Post) (d : Database) (o : Option ℕ)
    → null_or (λ id. has_post id d) o ≡ true
    → null_or (λ id. has_post id (record d { posts = p ∷ d.posts })) o ≡ true
unfolding has_post any_row
null_or-cons p d none h = refl
null_or-cons p d (some id) h = ground arith

pub insert_post-eq-rows :
    (np : NewPost) (st : Stamp) (d : Database) (p : Post) (d' : Database)
    → insert_post np st d ≡ rows p d'
    → (d' ≡ record d { posts = p ∷ d.posts })
      × (p.thread_id ≡ np.thread_id)
      × (p.created_at ≡ st.now)
      × (has_thread np.thread_id d ≡ true)
unfolding insert_post
insert_post-eq-rows np st d p d' e = ground arith

pub insert_post-HasRefs : (np : NewPost) → KeepsSql HasRefs (insert_post np)
unfolding has_group has_thread
insert_post-HasRefs np = record {
  at = λ st d p d' e r.
      let (same, thread, _, there) = insert_post-eq-rows np st d p d' e in
      rw same (record {
        groups = r.groups;
        threads = r.threads;
        posts = (rw thread there, r.posts);
        attachments =
            All-imp _ _ (λ (a : Attachment). null_or-cons p d a.post_id) d.attachments
              r.attachments;
      });
}

-- An edit leaves the identifier and the thread of a post.
null_or-edited :
    (id : ℕ) (f : Post → Post) (d : Database) (o : Option ℕ)
    → ((p : Post) → (f p).id ≡ p.id)
    → null_or (λ id. has_post id d) o ≡ true
    → null_or (λ k. has_post k (record d { posts = update_rows (λ p. p.id == id) f d.posts })) o
      ≡ true
unfolding has_post
null_or-edited id f d none same h = refl
null_or-edited id f d (some k) same h =
    any-update (λ p. p.id == k) (λ p. p.id == id) f (λ p. ap (λ (i : ℕ). i == k) (same p)) d.posts
    ∙ h

pub update_post-eq-rows :
    (id : ℕ) (body : Text) (editor : ℕ) (st : Stamp) (d : Database) (o : Option Post)
    (d' : Database)
    → update_post id body editor st d ≡ rows o d'
    → d' ≡ record d { posts = update_rows (λ p. p.id == id) (edited body editor st) d.posts }
unfolding update_post
update_post-eq-rows id body editor st d o d' e = ground arith

pub update_post-HasRefs :
    (id : ℕ) (body : Text) (editor : ℕ) → KeepsSql HasRefs (update_post id body editor)
unfolding edited has_group has_thread
update_post-HasRefs id body editor = record {
  at = λ st d o d' e r. rw (update_post-eq-rows id body editor st d o d' e) (record {
    groups = r.groups;
    threads = r.threads;
    posts =
        All-update (λ (p : Post). has_thread p.thread_id d ≡ true)
          (λ (p : Post). has_thread p.thread_id d ≡ true) (λ p. p.id == id) (edited body editor st)
          (λ p h. ground arith) d.posts r.posts;
    attachments =
        All-imp _ _
          (λ (a : Attachment). null_or-edited id (edited body editor st) d a.post_id (λ p. refl))
          d.attachments r.attachments;
  });
}

-- Posts that go take the references of attachments with them.
null_or-forget :
    (p : Post → Bool) (d : Database) (a : Attachment) (o : Option ℕ)
    → a.post_id ≡ o
    → null_or (λ id. has_post id d) o ≡ true
    → null_or
        (λ id. has_post id (record d { posts = keep_rows (λ q. not (p q)) d.posts }))
        (forget_post (λ id. any_row (λ q. p q && q.id == id) d.posts) a).post_id
      ≡ true
unfolding has_post forget_post
null_or-forget p d a none e h = rw e refl
null_or-forget p d a (some id) e h = elim (Bool-cases (any_row (λ q. p q && q.id == id) d.posts)) [
  | inl gone ↦ ground arith
  | inr kept ↦ ground (arith, any-keep_not (λ q. q.id == id) p d.posts h kept)
]

pub delete_posts-HasRefs : (p : Post → Bool) (d : Database) → HasRefs d → HasRefs (delete_posts p d)
unfolding delete_posts has_group has_thread has_post
delete_posts-HasRefs p d r = record {
  groups = r.groups;
  threads = r.threads;
  posts = All-keep _ _ (λ q. not (p q)) (λ q e h. h) d.posts r.posts;
  attachments =
      All-map _ _ (forget_post (λ id. any_row (λ q. p q && q.id == id) d.posts))
        (λ a h. null_or-forget p d a a.post_id refl h) d.attachments r.attachments;
}

pub delete_post-HasRefs : (id : ℕ) → KeepsSql HasRefs (Post.delete_row id)
unfolding Post.delete_row
delete_post-HasRefs id = record {
  at = λ st d n d' e r.
      let same : delete_posts (λ p. p.id == id) d ≡ d' = cc in
      subst HasRefs same (delete_posts-HasRefs (λ p. p.id == id) d r);
}

insert_attachment-eq-rows :
    (na : NewAttachment) (st : Stamp) (d : Database) (a : Attachment) (d' : Database)
    → insert_attachment na st d ≡ rows a d'
    → (d' ≡ record d { attachments = a ∷ d.attachments })
      × (null_or (λ id. has_post id d) a.post_id ≡ true)
unfolding insert_attachment
insert_attachment-eq-rows na st d a d' e = ground arith

pub insert_attachment-HasRefs : (na : NewAttachment) → KeepsSql HasRefs (insert_attachment na)
unfolding has_group has_thread has_post
insert_attachment-HasRefs na = record {
  at = λ st d a d' e r.
      let (same, there) = insert_attachment-eq-rows na st d a d' e in
      rw same (record {
        groups = r.groups;
        threads = r.threads;
        posts = r.posts;
        attachments = (there, r.attachments);
      });
}

pub delete_attachment-HasRefs : (id : ℕ) → KeepsSql HasRefs (Attachment.delete_row id)
unfolding Attachment.delete_row has_group has_thread has_post
delete_attachment-HasRefs id = record {
  at = λ st d n d' e r.
      let same : record d { attachments = keep_rows (λ a. not (a.id == id)) d.attachments } ≡ d' =
        cc in
      subst HasRefs same (record {
        groups = r.groups;
        threads = r.threads;
        posts = r.posts;
        attachments = All-keep _ _ (λ a. not (a.id == id)) (λ a e h. h) d.attachments r.attachments;
      });
}

pub ruleset post_rules = (
  insert_post-HasRefs, update_post-HasRefs, delete_post-HasRefs, insert_attachment-HasRefs,
  delete_attachment-HasRefs,
)
