-- ===== src/Integrity/Calls.antt =====
-- Each call of the services keeps the references between groups, threads, posts and attachments.
use masonic_core.Prelude.{ℕ, inl, inr, Bool, Option, none, some, List, Bool-cases}
use masonic_core.Text.{Text}
use masonic_core.Models.{
  Group, NewGroup, Thread, ThreadSummary, NewThread, Post, PostSummary, NewPost, Attachment,
}
use masonic_core.World.{Database}
use masonic_core.Store.Group
use masonic_core.Store.Thread
use masonic_core.Store.Post
use masonic_core.Store.Attachment
use masonic_core.Services.Group as GroupService
use masonic_core.Services.Thread as ThreadService
use masonic_core.Services.Thread.{CreateThreadInput, UpdateThreadInput}
use masonic_core.Services.Post as PostService
use masonic_core.Services.Media as MediaService
use masonic_core.Config.{Config}
use masonic_core.Storage.{attachment_key, upload, remove}
use masonic_core.World.Rules.{Keeps, keeps_rules, KeepsSql-read, Keeps-new_uuid, Keeps-value}
use masonic_core.Integrity.{HasRefs}
use masonic_core.Integrity.Groups.{group_rules}
use masonic_core.Integrity.Threads.{thread_rules}
use masonic_core.Integrity.Posts.{post_rules}

pub scan_group-Keeps : {P : Database → Type 0} (o : Option Group) → Keeps P (Group.scan_group o)
unfolding Group.scan_group
scan_group-Keeps none = search keeps_rules
scan_group-Keeps (some g) = search keeps_rules

pub scan_thread-Keeps : {P : Database → Type 0} (o : Option Thread) → Keeps P (Thread.scan_thread o)
unfolding Thread.scan_thread
scan_thread-Keeps none = search keeps_rules
scan_thread-Keeps (some g) = search keeps_rules

pub get_group-Keeps : {P : Database → Type 0} (id : ℕ) → Keeps P (Group.get_by_id id)
unfolding Group.get_by_id Group.select_group
get_group-Keeps id = search (keeps_rules, KeepsSql-read, scan_group-Keeps)

pub create_group-Keeps : (g : NewGroup) → Keeps HasRefs (GroupService.create g)
unfolding GroupService.create Group.create
create_group-Keeps g = search (keeps_rules, group_rules)

pub update_group-Keeps : (id : ℕ) (g : NewGroup) → Keeps HasRefs (GroupService.update id g)
unfolding GroupService.update Group.update
update_group-Keeps id g = search (keeps_rules, group_rules, scan_group-Keeps)

pub delete_group-Keeps : (id : ℕ) → Keeps HasRefs (GroupService.delete id)
unfolding GroupService.delete Group.delete Thread.count_by_group Thread.count_threads
delete_group-Keeps id = search (keeps_rules, group_rules, KeepsSql-read, get_group-Keeps) depth 12

pub get_thread-Keeps : {P : Database → Type 0} (id : ℕ) → Keeps P (Thread.get_by_id id)
unfolding Thread.get_by_id Thread.select_thread
get_thread-Keeps id = search (keeps_rules, KeepsSql-read, scan_thread-Keeps)

pub scan_summary-Keeps :
    {P : Database → Type 0} (o : Option ThreadSummary) → Keeps P (Thread.scan_thread_summary o)
unfolding Thread.scan_thread_summary
scan_summary-Keeps none = search keeps_rules
scan_summary-Keeps (some g) = search keeps_rules

pub thread_summary-Keeps : {P : Database → Type 0} (id : ℕ) → Keeps P (Thread.summary_by_id id)
unfolding Thread.summary_by_id Thread.select_summary
thread_summary-Keeps id = search (keeps_rules, KeepsSql-read, scan_summary-Keeps)

bump-Keeps : (id at : ℕ) → Keeps HasRefs (Thread.bump_post id at)
unfolding Thread.bump_post
bump-Keeps id at = search (keeps_rules, thread_rules)

pub create_body-Keeps : (nt : NewThread) (np : NewPost) → Keeps HasRefs (Thread.create_body nt np)
unfolding Thread.create_body
create_body-Keeps nt np = search (keeps_rules, thread_rules, post_rules, bump-Keeps) depth 12

create_rows-Keeps : (nt : NewThread) (np : NewPost) → Keeps HasRefs (Thread.create nt np)
unfolding Thread.create
create_rows-Keeps nt np = search (keeps_rules, create_body-Keeps)

pub get_thread_view-Keeps : (id : ℕ) → Keeps HasRefs (ThreadService.get id)
unfolding ThreadService.get Thread.increment_views
get_thread_view-Keeps id = search (keeps_rules, thread_rules, thread_summary-Keeps) depth 12

pub create_thread-Keeps : (input : CreateThreadInput) → Keeps HasRefs (ThreadService.create input)
unfolding ThreadService.create
create_thread-Keeps input =
    search (keeps_rules, create_rows-Keeps, get_group-Keeps, thread_summary-Keeps) depth 16

new_title-Keeps :
    (t : Thread) (o : Option Text) (id : ℕ) → Keeps HasRefs (ThreadService.new_title t o id)
unfolding ThreadService.new_title
new_title-Keeps t none id = search keeps_rules
new_title-Keeps t (some s) id = search keeps_rules depth 12

update_row-Keeps :
    (id : ℕ) (title : Text) (pinned locked : Bool)
    → Keeps HasRefs (Thread.update id title pinned locked)
unfolding Thread.update
update_row-Keeps id title pinned locked = search (keeps_rules, thread_rules, scan_thread-Keeps)

pub update_thread-Keeps :
    (id : ℕ) (input : UpdateThreadInput) (caller_id : ℕ) (roles : List Text)
    → Keeps HasRefs (ThreadService.update id input caller_id roles)
unfolding ThreadService.update
update_thread-Keeps id input caller_id roles =
    search (keeps_rules, get_thread-Keeps, new_title-Keeps, update_row-Keeps, thread_summary-Keeps)
      depth 16

pub delete_thread-Keeps :
    (id caller_id : ℕ) (roles : List Text) → Keeps HasRefs (ThreadService.delete id caller_id roles)
unfolding ThreadService.delete Thread.delete
delete_thread-Keeps id caller_id roles =
    search (keeps_rules, thread_rules, get_thread-Keeps) depth 16

pub scan_post-Keeps : {P : Database → Type 0} (o : Option Post) → Keeps P (Post.scan_post o)
unfolding Post.scan_post
scan_post-Keeps none = search keeps_rules
scan_post-Keeps (some g) = search keeps_rules

pub get_post-Keeps : {P : Database → Type 0} (id : ℕ) → Keeps P (Post.get_by_id id)
unfolding Post.get_by_id Post.select_post
get_post-Keeps id = search (keeps_rules, KeepsSql-read, scan_post-Keeps)

pub scan_post_summary-Keeps :
    {P : Database → Type 0} (o : Option PostSummary) → Keeps P (Post.scan_post_summary o)
unfolding Post.scan_post_summary
scan_post_summary-Keeps none = search keeps_rules
scan_post_summary-Keeps (some g) = search keeps_rules

pub post_summary-Keeps : {P : Database → Type 0} (id : ℕ) → Keeps P (Post.summary_by_id id)
unfolding Post.summary_by_id Post.select_summary
post_summary-Keeps id = search (keeps_rules, KeepsSql-read, scan_post_summary-Keeps)

pub create_post-Keeps :
    (thread_id author_id : ℕ) (body : Text)
    → Keeps HasRefs (PostService.create thread_id author_id body)
unfolding PostService.create Post.create
create_post-Keeps thread_id author_id body =
    search (keeps_rules, post_rules, get_thread-Keeps, bump-Keeps, post_summary-Keeps) depth 16

pub update_post-Keeps :
    (id author_id : ℕ) (body : Text) → Keeps HasRefs (PostService.update id author_id body)
unfolding PostService.update Post.update_body
update_post-Keeps id author_id body =
    search (keeps_rules, post_rules, get_post-Keeps, scan_post-Keeps, post_summary-Keeps) depth 16

pub delete_post-Keeps :
    (id caller_id : ℕ) (roles : List Text) → Keeps HasRefs (PostService.delete id caller_id roles)
unfolding PostService.delete Post.delete Thread.recalc_stats
delete_post-Keeps id caller_id roles =
    search (keeps_rules, post_rules, thread_rules, get_post-Keeps) depth 16

pub check_post-Keeps : {P : Database → Type 0} (o : Option ℕ) → Keeps P (MediaService.check_post o)
unfolding MediaService.check_post
check_post-Keeps none = search keeps_rules
check_post-Keeps (some id) = search (keeps_rules, get_post-Keeps) depth 12

pub upload-Keeps : {P : Database → Type 0} (key : Text) → Keeps P (upload key)
unfolding upload
upload-Keeps key = record {
  at = λ w h. elim (Bool-cases (w.env.outage w.calls)) [ inl e ↦ rw e h | inr e ↦ rw e h ];
}

pub remove-Keeps : {P : Database → Type 0} (key : Text) → Keeps P (remove key)
unfolding remove
remove-Keeps key = record {
  at = λ w h. elim (Bool-cases (w.env.outage w.calls)) [ inl e ↦ rw e h | inr e ↦ rw e h ];
}

pub key-Keeps : {P : Database → Type 0} (filename : Text) → Keeps P (attachment_key filename)
unfolding attachment_key
key-Keeps filename = search (keeps_rules, Keeps-new_uuid, Keeps-value)

pub upload_attachment-Keeps :
    (cfg : Config) (user_id : ℕ) (post_id : Option ℕ) (filename content_type : Text) (size : ℕ)
    → Keeps HasRefs (MediaService.upload_attachment cfg user_id post_id filename content_type size)
unfolding MediaService.upload_attachment Attachment.create
upload_attachment-Keeps cfg user_id post_id filename content_type size =
    search (keeps_rules, post_rules, check_post-Keeps, upload-Keeps, key-Keeps) depth 16

pub scan_attachment-Keeps :
    {P : Database → Type 0} (o : Option Attachment) → Keeps P (Attachment.scan_attachment o)
unfolding Attachment.scan_attachment
scan_attachment-Keeps none = search keeps_rules
scan_attachment-Keeps (some g) = search keeps_rules

pub get_attachment-Keeps : {P : Database → Type 0} (id : ℕ) → Keeps P (Attachment.get_by_id id)
unfolding Attachment.get_by_id Attachment.select_attachment
get_attachment-Keeps id = search (keeps_rules, KeepsSql-read, scan_attachment-Keeps)

pub delete_attachment-Keeps :
    (id caller_id : ℕ) (roles : List Text)
    → Keeps HasRefs (MediaService.delete_attachment id caller_id roles)
unfolding MediaService.delete_attachment Attachment.delete
delete_attachment-Keeps id caller_id roles =
    search (keeps_rules, post_rules, get_attachment-Keeps, remove-Keeps) depth 16

pub ruleset call_rules = (
  create_group-Keeps, update_group-Keeps, delete_group-Keeps, get_thread_view-Keeps,
  create_thread-Keeps, update_thread-Keeps, delete_thread-Keeps, create_post-Keeps,
  update_post-Keeps, delete_post-Keeps, upload_attachment-Keeps, delete_attachment-Keeps,
)
