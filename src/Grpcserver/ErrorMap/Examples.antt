-- ===== src/Grpcserver/ErrorMap/Examples.antt =====
-- grpcserver/errors.go: the theorems at a wrapped domain error.
use hockey_libs.Prelude.{some, []}
use hockey_libs.Errors.{Kind, Err, wrapped, plain}
use hockey_libs.Apperr.{boxed}
use hockey_libs.Grpcserver.ErrorMap.{map_some}
use hockey_libs.Grpcserver.ErrorMap.Laws.{Shows, map_some-Shows}
use hockey_libs.Grpcserver.ErrorMap.Sample.{appending}

abbrev denied : Err
denied = wrapped "delete user" (
    boxed (record {
      head = record {
        kind = Kind.permission_denied;
        code = "not_owner";
        message = "only the owner may do this";
        fields = [];
      };
      err = some (plain "row level policy");
    }))

map_some-Shows_example : Shows appending denied (map_some appending denied)
map_some-Shows_example = map_some-Shows appending denied
