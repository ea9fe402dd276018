-- ===== src/Runner/Shutdown.antt =====
-- runner/runner.go: the end of one component ends the others.
use hockey_libs.Prelude.{
  ◌≡◌, ◌≢◌, refl, String, Option, none, some, List, [], ◌∷◌, ◌++◌, ◌⊎◌, inl, inr, subst, Time,
  Option-cases,
}
use hockey_libs.Errors.{ret-inj, ret-ne-err, Err, ret}
use hockey_libs.Runner.{
  Runner, State, start, start_all, stop, Step, stops, parent_done, passes, finishes, times_out,
  Reach, started, next,
}

-- The context of the components has been cancelled.
abbrev pub Cancelled : State → Type 0
Cancelled s = (began : Time) × (s.cancelled_at ≡ some began)

Told : State → Type 0
Told s = ((s.stopped ≡ []) × (s.result ≡ none)) ⊎ Cancelled s

stop-Cancelled :
    (s : State) (rest : List String) (name : String) (e : Option Err)
    → Cancelled (stop s rest name e)
unfolding stop
stop-Cancelled s rest name e = elim (Option-cases s.cancelled_at) [
  | inl n ↦ (s.now, rw n refl)
  | inr (began, c) ↦ (began, rw c refl)
]

-- A runner has a component from its start on: with none stopped, one runs.
record Inv (s : State) : Type 0 where
  told : Told s
  one : (s.running ≢ []) ⊎ (s.stopped ≢ [])

append-ne-nil : {A : Type 0} (xs : List A) (x : A) → xs ++ x ∷ [] ≢ []
append-ne-nil [] x h = cc
append-ne-nil (y ∷ xs) x h = cc

Step-Inv : (r : Runner) (s t : State) → Step r s t → Inv s → Inv t
unfolding Told stop
Step-Inv r s _ (stops before after name e h) i = record {
  told = inr (stop-Cancelled s (before ++ after) name e);
  one = inr (append-ne-nil s.stopped (name, e));
}
Step-Inv r s _ (parent_done h) i = record { told = inr (s.now, refl); one = i.one }
Step-Inv r s _ (passes later h) i = record { told = i.told; one = i.one }
Step-Inv r s _ (finishes h n) i = record {
  told = elim i.told [
    | inl (none_yet, _) ↦ elim i.one [ inl x ↦ absurd (x h) | inr x ↦ absurd (x none_yet) ]
    | inr c ↦ inr c
  ];
  one = i.one;
}
Step-Inv r s _ (times_out began c l n) i = record { told = inr (began, c); one = i.one }

start_all-Inv : (now : Time) (cs : List String) (s : State) → start_all now cs ≡ ret s → Inv s
unfolding Told start_all
start_all-Inv now [] s h = absurd (ret-ne-err s _ h)
start_all-Inv now (name ∷ names) s h =
    subst Inv (ret-inj _ s h) (record { told = inl (refl, refl); one = inl (λ e. cc) })

Reach-Inv : (r : Runner) (s : State) → Reach r s → Inv s
unfolding start
Reach-Inv r s (started now h) = start_all-Inv now r.components s h
Reach-Inv r s (next {s = before} reach step) = Step-Inv r before s step (Reach-Inv r before reach)

-- In every state in which some component has returned, with or without an error, or `Run` has, the
-- context of all components is cancelled.
pub one_stops_all :
    (r : Runner) (s : State) → Reach r s → (s.stopped ≢ []) ⊎ (s.result ≢ none) → Cancelled s
unfolding Told
one_stops_all r s reach h = elim (Reach-Inv r s reach).told [
  | inr c ↦ c
  | inl (none_yet, waiting) ↦ elim h [ inl x ↦ absurd (x none_yet) | inr x ↦ absurd (x waiting) ]
]
