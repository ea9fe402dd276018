-- ===== src/Grpcclient/Client.antt =====
-- grpcclient/client.go: the settings of a client, the interceptors that it installs, and the creation of
-- a connection. grpc is its environment.
pub mod Creation
pub mod Calls
mod Examples
use hockey_libs.Prelude.{
  ℕ, ◌*◌, ◌≡◌, ◌⊎◌, ℤ, pos, String, Bool, true, false, not, Option, none, some, List, [], ◌∷◌, ◌++◌,
  str_eq, Duration, Time, seconds, nonzero_or, if◌then◌else◌,
}
use hockey_libs.Errors.{Err, plain, Result, ret, err}
use hockey_libs.Grpcserver.ErrorMap.{StatusLib}
use hockey_libs.Grpcclient.Token.{forward_token}
use hockey_libs.Grpcclient.Interceptors.{ClientInterceptor, Invoker, request_id, timeout, logging}

pub data Transport : Type 0 where
  encrypted insecure : Transport

-- A `grpc.DialOption` of the settings: one that sets the transport credentials, or another. What the
-- others may override (sizes, the service config, interceptors) is left out.
pub data DialOption : Type 0 where
  credentials : Transport → DialOption
  other : DialOption

pub record Config (R : Type 0) : Type 0 where
  pub target : String
  pub tls : Bool
  pub require_tls : Bool
  pub disable_retries : Bool
  pub default_timeout : Duration
  pub connect_timeout : Duration
  pub wait_for_connection : Bool
  pub max_recv_msg_size : ℤ
  pub max_send_msg_size : ℤ
  pub service_config : String
  pub dial_options : List DialOption
  pub interceptors : List (ClientInterceptor R)

unfoldable pub with_defaults : {R : Type 0} → Config R → Config R
with_defaults c = record c {
  connect_timeout = nonzero_or c.connect_timeout (seconds 5);
  default_timeout = nonzero_or c.default_timeout (seconds 5);
  max_recv_msg_size = nonzero_or c.max_recv_msg_size (pos (4 * 1024 * 1024));
  max_send_msg_size = nonzero_or c.max_send_msg_size (pos (4 * 1024 * 1024));
}

unfoldable pub transport_credentials : {R : Type 0} → Config R → Result Transport
transport_credentials c =
    if c.tls
    then ret encrypted
    else if c.require_tls
    then err (plain "grpcclient: RequireTLS is set but TLS config is missing")
    else ret insecure

-- The credentials of the connection: grpc applies the options in order, those of the settings last.
unfoldable pub dialed : Transport → List DialOption → Transport
dialed t [] = t
dialed t (credentials u ∷ options) = dialed u options
dialed t (other ∷ options) = dialed t options

-- The service config of the connection, if it has one; `default` is `defaultServiceConfig`.
unfoldable pub service_config_of : {R : Type 0} → String → Config R → Option String
service_config_of default c =
    if c.disable_retries
    then none
    else some (if str_eq c.service_config "" then default else c.service_config)

-- `ForwardTokenUnaryInterceptor`
abbrev pub forwarding : {R : Type 0} → ClientInterceptor R
forwarding method invoker ctx = forward_token invoker ctx

-- The interceptors of a call, the outermost first.
unfoldable pub installed : {R : Type 0} → StatusLib → Config R → Time → List (ClientInterceptor R)
installed lib c now =
    request_id ∷ forwarding ∷ timeout c.default_timeout now ∷ logging lib ∷ c.interceptors

unfoldable pub chain : {R : Type 0} → List (ClientInterceptor R) → ClientInterceptor R
chain [] method invoker = invoker
chain (i ∷ rest) method invoker = i method (chain rest method invoker)

-- A call on a connection that `New` made of the settings.
unfoldable pub call : {R : Type 0} → StatusLib → Config R → Time → ClientInterceptor R
call lib c now method invoker = chain (installed lib (with_defaults c) now) method invoker

-- google.golang.org/grpc/connectivity
pub data Connectivity : Type 0 where
  idle connecting ready transient_failure shutdown : Connectivity

-- What one round of the wait sees: the state, and whether it changes before the context ends.
pub record Round : Type 0 where
  pub state : Connectivity
  pub changed : Bool

-- One round, with the outcome of the rounds after it.
wait_round : Err → Connectivity → Bool → Option (Option Err) → Option (Option Err)
wait_round ended ready changed more = some none
wait_round ended shutdown changed more = some (some (plain "grpcclient: connection is shut down"))
wait_round ended _ changed more = if changed then more else some (some ended)

-- `waitForConnection`, over the rounds that the connection and the context allow; none while it waits.
-- `ended` is the error of the context.
unfoldable pub wait_for_connection : Err → List Round → Option (Option Err)
unfolding wait_round
wait_for_connection ended [] = none
wait_for_connection ended (round ∷ rounds) =
    wait_round ended round.state round.changed (wait_for_connection ended rounds)

-- What `New` does with connections.
pub data Action : Type 0 where
  opens : Transport → Action
  closes : Action

abbrev pub finished : Transport → Option (Option Err) → List Action × Option (Result Transport)
finished t none = (opens t ∷ [], none)
finished t (some none) = (opens t ∷ [], some (ret t))
finished t (some (some e)) = (opens t ∷ closes ∷ [], some (err e))

-- A connection that need not be ready is returned at once.
abbrev pub waited : Bool → Transport → Option (Option Err) → List Action × Option (Result Transport)
waited false t outcome = (opens t ∷ [], some (ret t))
waited true t outcome = finished t outcome

-- `New`, with what `grpc.NewClient` answers; it returns none while it waits for the connection. The
-- connection is told by its transport.
unfoldable pub new :
    {R : Type 0}
    → Config R
    → Option Err
    → Err
    → List Round
    → List Action × Option (Result Transport)
new config created ended rounds =
    let c = with_defaults config in
    if str_eq c.target ""
    then ([], some (err (plain "grpcclient: target is required")))
    else elim (transport_credentials c) [
      | err e ↦ ([], some (err e))
      | ret t ↦ elim created [
        | some e ↦ ([], some (err e))
        | none ↦
            waited c.wait_for_connection (dialed t c.dial_options)
              (wait_for_connection ended rounds)
      ]
    ]
