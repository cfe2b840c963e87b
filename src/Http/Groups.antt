-- ===== src/Http/Groups.antt =====
-- groups.go
use masonic_core.Text.{Text, text}
use masonic_core.Services.Group
use masonic_core.Http.{Server, Handler, Response, groups_body, group_body}
use masonic_core.Http.Answers.{reply, json, refusal, no_content, attempt, or_refuse, core}
use masonic_core.Http.Input.{with_id}

abbrev invalid_json : Response
invalid_json = refusal 400 (text "invalid_json") (text "Invalid request body")

abbrev bad_id : Text
bad_id = text "Invalid group id"

unfoldable pub list : Handler
list r = attempt Group.list core λ groups. reply (json 200 (groups_body groups))

unfoldable pub create : Server → Handler
create srv r =
    or_refuse (srv.decoders.group_request r.payload) invalid_json
      λ input. attempt (Group.create input) core λ g. reply (json 201 (group_body g))

unfoldable pub get : Handler
get r =
    with_id r (text "groupID") bad_id
      λ id. attempt (Group.get id) core λ g. reply (json 200 (group_body g))

unfoldable pub update : Server → Handler
update srv r = with_id r (text "groupID") bad_id λ id.
    or_refuse (srv.decoders.group_request r.payload) invalid_json
      λ input. attempt (Group.update id input) core λ g. reply (json 200 (group_body g))

unfoldable pub delete : Handler
delete r =
    with_id r (text "groupID") bad_id λ id. attempt (Group.delete id) core λ _. reply no_content
