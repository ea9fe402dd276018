-- ===== src/Grpcserver/Server/Examples.antt =====
-- grpcserver/server.go: a server whose handler fails, and one whose handler panics.
use hockey_libs.Prelude.{
  ◌≡◌, refl, String, true, false, none, some, [], ◌∷◌, ◌++◌, contains, pos, seconds,
}
use hockey_libs.Errors.{Err, Kind, sentinel, Sentinel}
use hockey_libs.Apperr.{boxed, new}
use hockey_libs.Grpcserver.Context.{Ctx}
use hockey_libs.Grpcserver.Reply.{replies, panics, Reply, answer, panic}
use hockey_libs.Grpcserver.ErrorMap.{map_some, map_error}
use hockey_libs.Grpcserver.ErrorMap.Sample.{appending}
use hockey_libs.Grpcserver.RequestId.{metadata_key}
use hockey_libs.Grpcserver.Interceptors.{mapped_ending}
use hockey_libs.Grpcserver.Server.{Config, chain, own_skip_methods, serve, Events, run}
use hockey_libs.Grpcserver.Server.Answers.{Answers, inner, serve-Answers}
use hockey_libs.Grpcserver.Server.Logs.{id_sent, serve_panic_logged}
use hockey_libs.Grpcserver.Server.Life.{orderly, unseen, run_orderly}

abbrev cfg : Config String
cfg = record {
  address = "";
  enable_health = true;
  enable_reflection = false;
  graceful_stop_timeout = pos 0;
  drain_delay = seconds 3;
  max_recv_msg_size = pos 0;
  max_send_msg_size = pos 0;
  max_concurrent_streams = pos 0;
  registry = true;
  log_skip_methods = [];
  interceptors = [];
}

abbrev ctx : Ctx
ctx = record {
  metadata = none;
  peer = some "10.0.0.9:4711";
  claims = none;
  request_id = none;
  deadline = none;
  attrs = [];
}

abbrev failure : Err
failure = boxed (new Kind.not_found "team_not_found" "no such team")

abbrev failing : Ctx → Reply String
failing c = answer none (some failure)

abbrev panicking : Ctx → Reply String
panicking c = record { headers = []; logs = []; observed = []; ending = panics }

serve-Answers_example :
    Answers appending
      (inner appending cfg "id-1" "/teams/Get" failing ctx).ending
      (serve appending cfg "id-1" "/teams/Get" failing ctx).ending
serve-Answers_example = serve-Answers appending cfg "id-1" "/teams/Get" failing ctx

failing_test :
    (inner appending cfg "id-1" "/teams/Get" failing ctx).ending ≡ replies none (some failure)
unfolding chain
failing_test = refl

skip_test : contains (own_skip_methods ++ cfg.log_skip_methods) "/teams/Get" ≡ false
unfolding contains
skip_test = refl

shown_test :
    mapped_ending appending {R = String} (replies none (some failure))
    ≡ replies none (some (map_some appending failure))
unfolding map_error
shown_test = refl

panicking_test : (inner appending cfg "id-1" "/teams/Get" panicking ctx).ending ≡ panics
unfolding chain
panicking_test = refl

serve_panic_logged_example :
    ((serve appending cfg "id-1" "/teams/Get" panicking ctx).logs
      ≡ (inner appending cfg "id-1" "/teams/Get" panicking ctx).logs ++ panic "/teams/Get" "" ∷ [])
    × ((serve appending cfg "id-1" "/teams/Get" panicking ctx).headers
        ≡ (metadata_key, id_sent appending cfg "id-1" "/teams/Get" panicking ctx)
          ∷ (inner appending cfg "id-1" "/teams/Get" panicking ctx).headers)
serve_panic_logged_example =
    serve_panic_logged appending cfg "id-1" "/teams/Get" panicking ctx refl panicking_test

abbrev slow_stop : Events
slow_stop = record {
  listen = none;
  serve_first = none;
  stopped_in_time = false;
  serve_end = some (sentinel Sentinel.server_stopped);
}

run_orderly_example : orderly unseen (run cfg slow_stop).0 ≡ true
run_orderly_example = run_orderly cfg slow_stop
