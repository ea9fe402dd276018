-- ===== src/Grpcserver/RequestId.antt =====
-- grpcserver/requestid.go and requestid/requestid.go: the id of a request. `fresh` is the result of
-- `uuid.NewString`.
use hockey_libs.Prelude.{String, Option, none, some, str_eq, if◌then◌else◌}
use hockey_libs.Grpcserver.Reply.{Interceptor, set_header}
use hockey_libs.Grpcserver.Context.{Ctx, metadata_value, with_attr}

abbrev pub metadata_key : String
metadata_key = "x-request-id"

unfoldable pub with_id : Ctx → String → Ctx
with_id ctx id = record ctx { request_id = some id }

-- `FromContext`: an empty id is none.
unfoldable pub id_of : Ctx → Option String
id_of ctx = elim ctx.request_id [ none ↦ none | some id ↦ if str_eq id "" then none else some id ]

abbrev pub get_of : Option String → String
get_of none = ""
get_of (some id) = id

unfoldable pub get : Ctx → String
unfolding id_of
get ctx = get_of (id_of ctx)

abbrev pub received_id : Ctx → String
received_id ctx = elim ctx.metadata [ none ↦ "" | some md ↦ metadata_value md metadata_key ]

unfoldable pub with_request_id : Ctx → String → Ctx × String
unfolding metadata_value with_id with_attr
with_request_id ctx fresh =
    let received = received_id ctx in
    let id = if str_eq received "" then fresh else received in
    (with_attr (with_id ctx id) "request_id" id, id)

-- Both interceptors. `uuid.NewString` is called for a request that brings no id.
unfoldable pub request_id : {R : Type 0} → String → Interceptor R
unfolding with_request_id
request_id fresh method handler ctx =
    let (inner, id) = with_request_id ctx fresh in set_header metadata_key id (handler inner)
