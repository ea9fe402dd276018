-- ===== src/Grpcclient/Client/Examples.antt =====
-- A client of one service, and two servers behind one another.
use hockey_libs.Prelude.{
  ◌≡◌, refl, pos, String, true, false, none, some, List, [], ◌∷◌, lookup, str_eq, Bool-cases, inl,
  inr, ap,
}
use mathlib.Core.Option
use hockey_libs.Errors.{Err, Sentinel, sentinel, ret}
use hockey_libs.Grpcclient.Client.{
  Config, other, dialed, connecting, ready, Round, opens, encrypted, new, with_defaults,
  wait_for_connection, transport_credentials,
}
use hockey_libs.Grpcclient.Client.Creation.{Clean, new-Clean}
use hockey_libs.Grpcclient.Client.Calls.{Wire}

abbrev client : Config String
client = record {
  target = "teams:50051";
  tls = true;
  require_tls = true;
  disable_retries = false;
  default_timeout = pos 0;
  connect_timeout = pos 0;
  wait_for_connection = true;
  max_recv_msg_size = pos 0;
  max_send_msg_size = pos 0;
  service_config = "";
  dial_options = other ∷ [];
  interceptors = [];
}

abbrev too_late : Err
too_late = sentinel Sentinel.deadline_exceeded

abbrev rounds : List Round
rounds =
    record { state = connecting; changed = true } ∷ record { state = ready; changed = false } ∷ []

new_test : new client none too_late rounds ≡ (opens encrypted ∷ [], some (ret encrypted))
unfolding new with_defaults transport_credentials dialed wait_for_connection
new_test = refl

new-Clean_example : Clean client rounds (new client none too_late rounds)
new-Clean_example = new-Clean client too_late rounds none

abbrev grouped : List (String × String) → List (String × List String)
grouped [] = []
grouped ((k, v) ∷ rest) = (k, v ∷ []) ∷ grouped rest

grouped_first :
    (key value : String) (sent : List (String × String))
    → lookup key sent ≡ some value
    → (more : List String) × (lookup key (grouped sent) ≡ some (value ∷ more))
unfolding lookup
grouped_first key value [] h = cc
grouped_first key value ((k, v) ∷ rest) h = elim (Bool-cases (str_eq k key)) [
  | inl e ↦ let same = rw e at h in ([], rw e (ap (λ o. Option.map (λ x. x ∷ []) o) same))
  | inr e ↦ rw e (grouped_first key value rest (rw e at h))
]

-- A wire that sends each pair as it is: the law of `Wire` can hold.
abbrev wire : Wire
wire = record { metadata_of = grouped; first_kept = grouped_first }
