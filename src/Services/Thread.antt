-- ===== src/Services/Thread.antt =====
-- internal/services/thread.go
use masonic_core.Prelude.{
  ℕ, Bool, ◌&&◌, ◌||◌, not, Option, none, some, List, ltb, ◌==◌, if◌then◌else◌,
}
use masonic_core.Text.{Text}
use masonic_core.Models.{Thread, ThreadSummary}
use masonic_core.World.{
  group_not_found, thread_not_found, forbidden, invalid_input, M, pure, handle, ◌>>=◌, ◌>>◌,
  refuse_if, missing_as,
}
use masonic_core.Text.Space.{trim_space}
use masonic_core.Text.Runes.{rune_count}
use masonic_core.Config.{is_empty}
use masonic_core.Store.Group
use masonic_core.Store.Thread
use masonic_core.Services.Roles.{is_moderator}

abbrev pub max_thread_title_len : ℕ
max_thread_title_len = 200

abbrev pub max_body_len : ℕ
max_body_len = 50000

pub record CreateThreadInput : Type 0 where
  pub group_id : ℕ
  pub author_id : ℕ
  pub title : Text
  pub body : Text

pub record UpdateThreadInput : Type 0 where
  pub title : Option Text
  pub pinned : Option Bool
  pub locked : Option Bool

-- validateTitle and validateBody
unfoldable pub is_title : Text → Bool
is_title s = not (is_empty (trim_space s) || ltb max_thread_title_len (rune_count (trim_space s)))

unfoldable pub is_body : Text → Bool
is_body s = not (is_empty (trim_space s) || ltb max_body_len (rune_count (trim_space s)))

unfoldable pub list_by_group : ℕ → ℕ → ℕ → M (List ThreadSummary × ℕ)
list_by_group group_id limit offset = do
  _ ← handle (Group.get_by_id group_id) (missing_as group_not_found)
  Thread.list_by_group group_id limit offset

unfoldable pub get : ℕ → M ThreadSummary
get id = do
  ts ← handle (Thread.summary_by_id id) (missing_as thread_not_found)
  Thread.increment_views id
  pure ts

unfoldable pub create : CreateThreadInput → M ThreadSummary
create input = do
  _ ← handle (Group.get_by_id input.group_id) (missing_as group_not_found)
  refuse_if (not (is_title input.title)) invalid_input
  refuse_if (not (is_body input.body)) invalid_input
  th ←
      Thread.create
        (record { group_id = input.group_id; author_id = input.author_id; title = input.title })
        (record { thread_id = 0; author_id = input.author_id; body = input.body })
  Thread.summary_by_id th.id

-- A title is changed by the author only, and has to be valid.
unfoldable pub new_title : Thread → Option Text → ℕ → M Text
new_title t none caller_id = pure t.title
new_title t (some title) caller_id = do
  refuse_if (not (t.author_id == caller_id)) forbidden
  refuse_if (not (is_title title)) invalid_input
  pure title

-- Pinning and locking are a moderator's.
abbrev pub moderated : Bool → Option Bool → Bool → Bool
moderated moderator none old = old
moderated moderator (some b) old = if moderator then b else old

unfoldable pub update : ℕ → UpdateThreadInput → ℕ → List Text → M ThreadSummary
unfolding new_title
update id input caller_id roles = do
  t ← handle (Thread.get_by_id id) (missing_as thread_not_found)
  refuse_if (not (t.author_id == caller_id) && not (is_moderator roles)) forbidden
  title ← new_title t input.title caller_id
  updated ←
      handle
        (Thread.update id title (moderated (is_moderator roles) input.pinned t.pinned)
          (moderated (is_moderator roles) input.locked t.locked))
        (missing_as thread_not_found)
  Thread.summary_by_id updated.id

unfoldable pub delete : ℕ → ℕ → List Text → M (Unit {0})
delete id caller_id roles = do
  t ← handle (Thread.get_by_id id) (missing_as thread_not_found)
  refuse_if (not (t.author_id == caller_id) && not (is_moderator roles)) forbidden
  handle (Thread.delete id) (missing_as thread_not_found)
