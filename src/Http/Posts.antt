-- ===== src/Http/Posts.antt =====
-- posts.go
use masonic_core.Text.{Text, text}
use masonic_core.Services.Post
use masonic_core.Http.{Server, Handler, Response, post_body, posts_body}
use masonic_core.Http.Answers.{reply, json, refusal, no_content, attempt, or_refuse, core}
use masonic_core.Http.Input.{pagination, with_id, with_user}

abbrev invalid_json : Response
invalid_json = refusal 400 (text "invalid_json") (text "Invalid request body")

abbrev bad_id : Text
bad_id = text "Invalid post id"

unfoldable pub list_by_thread : Handler
list_by_thread r = with_id r (text "threadID") (text "Invalid thread id") λ thread_id.
    let (limit, offset) = pagination r in
    attempt (Post.list_by_thread thread_id limit offset) core
      λ (items, total). reply (json 200 (posts_body items total limit offset))

unfoldable pub create : Server → Handler
create srv r = with_id r (text "threadID") (text "Invalid thread id") λ thread_id.
    with_user r λ user.
      or_refuse (srv.decoders.post_request r.payload) invalid_json λ body.
        attempt (Post.create thread_id user.id body) core λ p. reply (json 201 (post_body p))

unfoldable pub update : Server → Handler
update srv r = with_id r (text "postID") bad_id λ id. with_user r λ user.
    or_refuse (srv.decoders.post_request r.payload) invalid_json
      λ body. attempt (Post.update id user.id body) core λ p. reply (json 200 (post_body p))

unfoldable pub delete : Handler
delete r =
    with_id r (text "postID") bad_id λ id.
      with_user r λ user. attempt (Post.delete id user.id user.roles) core λ _. reply no_content
