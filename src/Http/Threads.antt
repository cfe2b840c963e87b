-- ===== src/Http/Threads.antt =====
-- threads.go
use masonic_core.Text.{Text, text}
use masonic_core.Services.Thread
use masonic_core.Http.{Server, Handler, Response, thread_body, threads_body}
use masonic_core.Http.Answers.{reply, json, refusal, no_content, attempt, or_refuse, core}
use masonic_core.Http.Input.{pagination, with_id, with_user}

abbrev invalid_json : Response
invalid_json = refusal 400 (text "invalid_json") (text "Invalid request body")

abbrev bad_id : Text
bad_id = text "Invalid thread id"

unfoldable pub list_by_group : Handler
list_by_group r = with_id r (text "groupID") (text "Invalid group id") λ group_id.
    let (limit, offset) = pagination r in
    attempt (Thread.list_by_group group_id limit offset) core
      λ (items, total). reply (json 200 (threads_body items total limit offset))

unfoldable pub create : Server → Handler
create srv r = with_id r (text "groupID") (text "Invalid group id") λ group_id. with_user r λ user.
    or_refuse (srv.decoders.create_thread_request r.payload) invalid_json λ req.
      attempt
        (Thread.create
          (record { group_id = group_id; author_id = user.id; title = req.title; body = req.body }))
        core λ th. reply (json 201 (thread_body th))

unfoldable pub get : Handler
get r =
    with_id r (text "threadID") bad_id
      λ id. attempt (Thread.get id) core λ th. reply (json 200 (thread_body th))

unfoldable pub update : Server → Handler
update srv r = with_id r (text "threadID") bad_id λ id. with_user r λ user.
    or_refuse (srv.decoders.update_thread_request r.payload) invalid_json λ req.
      attempt
        (Thread.update id (record { title = req.title; pinned = req.pinned; locked = req.locked })
          user.id user.roles)
        core λ th. reply (json 200 (thread_body th))

unfoldable pub delete : Handler
delete r = with_id r (text "threadID") bad_id λ id.
    with_user r λ user. attempt (Thread.delete id user.id user.roles) core λ _. reply no_content
