-- ===== src/Grpcclient/Client/Creation.antt =====
-- grpcclient/client.go: what `New` returns, and what it leaves behind.
use hockey_libs.Prelude.{
  ◌≡◌, ◌≢◌, refl, sym, ◌∙◌, ◌⊎◌, inl, inr, Bool, true, false, Option, none, some, List, [], ◌∷◌,
  ◌++◌, str_eq, Bool-cases, Option-cases,
}
use hockey_libs.Errors.{ret-inj, ret-ne-err, Result-cases, Err, Result, ret, err}
use hockey_libs.Grpcclient.Client.{
  Config, with_defaults, Transport, DialOption, credentials, other, dialed, encrypted,
  transport_credentials, Connectivity, idle, connecting, ready, transient_failure, shutdown, Round,
  wait_round, wait_for_connection, Action, opens, closes, finished, waited, new,
}

wait_round_end :
    (ended : Err) (state : Connectivity) (changed : Bool) (more : Option (Option Err))
    → changed ≡ false
    → wait_round ended state changed more ≢ none
unfolding wait_round
wait_round_end ended ready changed more h e = cc
wait_round_end ended shutdown changed more h e = cc
wait_round_end ended idle changed more h e = cc (rw h at e)
wait_round_end ended connecting changed more h e = cc (rw h at e)
wait_round_end ended transient_failure changed more h e = cc (rw h at e)

wait_round_more :
    (ended : Err) (state : Connectivity) (changed : Bool) (more : Option (Option Err))
    → more ≢ none
    → wait_round ended state changed more ≢ none
unfolding wait_round
wait_round_more ended ready changed more h e = cc
wait_round_more ended shutdown changed more h e = cc
wait_round_more ended idle true more h e = h e
wait_round_more ended idle false more h e = cc
wait_round_more ended connecting true more h e = h e
wait_round_more ended connecting false more h e = cc
wait_round_more ended transient_failure true more h e = h e
wait_round_more ended transient_failure false more h e = cc

-- The wait ends at the latest in the round in which its context ends.
pub wait_ends :
    (ended : Err) (before : List Round) (round : Round) (after : List Round)
    → round.changed ≡ false
    → wait_for_connection ended (before ++ round ∷ after) ≢ none
unfolding wait_for_connection wait_round
wait_ends ended [] round after h = wait_round_end ended round.state round.changed _ h
wait_ends ended (first ∷ before) round after h =
    wait_round_more ended first.state first.changed _ (wait_ends ended before round after h)

-- An option of the settings sets these credentials.
abbrev pub Sets : Transport → List DialOption → Type 0
Sets t [] = ⊥
Sets t (credentials u ∷ options) = (u ≡ t) ⊎ Sets t options
Sets t (other ∷ options) = Sets t options

-- In these rounds the connection gets ready, and before that it is never shut down, and the context
-- lasts.
abbrev pub GetsReady : List Round → Type 0
GetsReady [] = ⊥
GetsReady (r ∷ rounds) =
    (r.state ≡ ready) ⊎ ((r.state ≢ shutdown) × (r.changed ≡ true) × GetsReady rounds)

-- The credentials of a connection: encrypted, insecure if no TLS is configured or required, or what a
-- dial option says.
abbrev pub Allowed : {R : Type 0} → Config R → Transport → Type 0
Allowed c t = (t ≡ encrypted) ⊎ ((c.tls ≡ false) × (c.require_tls ≡ false)) ⊎ Sets t c.dial_options

-- A connection that `New` returns is open, has credentials that the settings allow, and got ready if
-- it has to wait for that; a connection that it does not return has been closed.
abbrev pub Clean :
    {R : Type 0} → Config R → List Round → List Action × Option (Result Transport) → Type 0
Clean c rounds (actions, none) = (t : Transport) × (actions ≡ opens t ∷ [])
Clean c rounds (actions, some (ret t)) =
    (actions ≡ opens t ∷ []) × Allowed c t × ((c.wait_for_connection ≡ false) ⊎ GetsReady rounds)
Clean c rounds (actions, some (err e)) =
    (actions ≡ []) ⊎ ((t : Transport) × (actions ≡ opens t ∷ closes ∷ []))

wait_round-ready :
    (ended : Err) (state : Connectivity) (changed : Bool) (more : Option (Option Err))
    → wait_round ended state changed more ≡ some none
    → (state ≡ ready) ⊎ ((state ≢ shutdown) × (changed ≡ true) × (more ≡ some none))
unfolding wait_round
wait_round-ready ended ready changed more h = inl refl
wait_round-ready ended shutdown changed more h = cc
wait_round-ready ended idle true more h = inr (λ e. cc, refl, h)
wait_round-ready ended idle false more h = cc
wait_round-ready ended connecting true more h = inr (λ e. cc, refl, h)
wait_round-ready ended connecting false more h = cc
wait_round-ready ended transient_failure true more h = inr (λ e. cc, refl, h)
wait_round-ready ended transient_failure false more h = cc

wait-GetsReady :
    (ended : Err) (rounds : List Round)
    → wait_for_connection ended rounds ≡ some none
    → GetsReady rounds
unfolding wait_for_connection
wait-GetsReady ended [] h = cc
wait-GetsReady ended (r ∷ rounds) h =
    elim (wait_round-ready ended r.state r.changed (wait_for_connection ended rounds) h) [
      | inl e ↦ inl e
      | inr (s, c, more) ↦ inr (s, c, wait-GetsReady ended rounds more)
    ]

dialed-Sets :
    (t : Transport) (options : List DialOption)
    → (dialed t options ≡ t) ⊎ Sets (dialed t options) options
unfolding dialed
dialed-Sets t [] = inl refl
dialed-Sets t (other ∷ options) = dialed-Sets t options
dialed-Sets t (credentials u ∷ options) = elim (dialed-Sets u options) [
  | inl e ↦ inr (inl (sym e))
  | inr s ↦ inr (inr s)
]

module _ {R : Type 0} (config : Config R) (ended : Err) (rounds : List Round) where
  transport_allowed :
      (c : Config R) (t : Transport)
      → transport_credentials c ≡ ret t
      → (t ≡ encrypted) ⊎ ((c.tls ≡ false) × (c.require_tls ≡ false))
  unfolding transport_credentials
  transport_allowed c t h = elim (Bool-cases c.tls) [
    | inl s ↦ inl (sym (ret-inj encrypted t (rw (transport_credentials, s) at h)))
    | inr s ↦ elim (Bool-cases c.require_tls) [
      | inl r ↦ absurd (ret-ne-err t _ (rw (transport_credentials, s, r) at h))
      | inr r ↦ inr (s, r)
    ]
  ]

  dialed-Allowed :
      (t : Transport)
      → (t ≡ encrypted) ⊎ ((config.tls ≡ false) × (config.require_tls ≡ false))
      → Allowed config (dialed t config.dial_options)
  dialed-Allowed t a = elim (dialed-Sets t config.dial_options) [
    | inr s ↦ inr (inr s)
    | inl e ↦ elim a [ inl x ↦ inl (e ∙ x) | inr x ↦ inr (inl x) ]
  ]

  finished-Clean :
      (t : Transport) (w : Option (Option Err))
      → Allowed config t
      → wait_for_connection ended rounds ≡ w
      → Clean config rounds (finished t w)
  finished-Clean t none a h = (t, refl)
  finished-Clean t (some none) a h = (refl, a, inr (wait-GetsReady ended rounds h))
  finished-Clean t (some (some e)) a h = inr (t, refl)

  waited-Clean :
      (wait : Bool) (t : Transport)
      → Allowed config t
      → config.wait_for_connection ≡ wait
      → Clean config rounds (waited wait t (wait_for_connection ended rounds))
  waited-Clean false t a w = (refl, a, inl w)
  waited-Clean true t a w = finished-Clean t (wait_for_connection ended rounds) a refl

  -- Whatever `NewClient` answers and the wait sees, `New` leaves no connection open that it does not
  -- return. One that it returns is encrypted, unless TLS is neither configured nor required, or a dial
  -- option of the settings says otherwise; and if it has to wait, the connection got ready before it
  -- was shut down and before the context ended.
  pub new-Clean : (created : Option Err) → Clean config rounds (new config created ended rounds)
  unfolding new with_defaults
  new-Clean created = elim (Bool-cases (str_eq config.target "")) [
    | inl n ↦ rw (new, n) (inl refl)
    | inr n ↦ elim (Result-cases (transport_credentials (with_defaults config))) [
      | inl (e, s) ↦ rw (new, n, s) (inl refl)
      | inr (t, s) ↦ elim (Option-cases created) [
        | inr (e, c) ↦ rw (new, n, s, c) (inl refl)
        | inl c ↦
            let a = dialed-Allowed t (transport_allowed (with_defaults config) t s) in
            rw (new, n, s, c)
              (waited-Clean config.wait_for_connection (dialed t config.dial_options) a refl)
      ]
    ]
  ]
