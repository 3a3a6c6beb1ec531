-- ===== src/Outbox/Runner.antt =====
-- internal/outbox/runner.go: the loop that polls the outbox. The runs of a context, the publication
-- and the timer are a sequence of rounds.
mod Tests
use eventrail_ingestion.Prelude.{
  Bool, List, [], arith, count_if, eqb, false, if_cases, if◌then◌else◌, negsuc, pos, refl, subst,
  suc, true, zero, ℕ, ℤ, ◌+◌, ◌∷◌, ◌≡◌, ◌≤◌,
}
use eventrail_ingestion.Errors.{Error, failed, is_error, new, nil, outbox_publish_failed}
use eventrail_ingestion.Outbox.Publisher.{PublishResult}
use eventrail_ingestion.Worker.Effects.{now}

-- `NewRunner`: the error of its arguments, whether there is a `publishNext` and the poll interval.
new_runner : Bool → ℤ → Error
new_runner false interval = new "outbox runner publish function is required"
new_runner true (negsuc n) = new "outbox runner poll interval must be positive"
new_runner true (pos n) =
    if eqb n 0 then new "outbox runner poll interval must be positive" else nil

-- What one round of the loop meets: whether the context is done before and after the call, what the
-- call returns, and whether the timer of a wait fires before the context is done.
pub record Round : Type 0 where
  pub done_before : Bool
  pub result : PublishResult
  pub error : Error
  pub done_after : Bool
  pub timer_fires : Bool

-- What the loop does: calls of `publishNext` and of `onError`, and waits.
pub data Act : Type 0 where
  publish_call waited : Act
  reported : Error → Act

-- What was done, and whether `Run` has returned.
abbrev pub Progress : Type 0
Progress = List Act × Bool

-- `waitForContext`, and the rest of the loop if the timer fires.
wait_for_context : Round → Progress → Progress
wait_for_context r next = if r.timer_fires then (waited ∷ next.0, next.1) else (waited ∷ [], true)

after : Act → Progress → Progress
after a next = (a ∷ next.0, next.1)

-- `reportError`, of a runner that has an `onError`, as main.go makes it.
report_error : Round → Progress → Progress
report_error r = after (reported r.error)

-- The round after the call of `publishNext`.
after_call : Round → Progress → Progress
after_call r next =
    if r.done_after
    then ([], true)
    else if is_error r.error outbox_publish_failed
    then report_error r next
    else if failed r.error
    then report_error r (wait_for_context r next)
    else if r.result.found
    then next
    else wait_for_context r next

-- `Run`, for so many rounds at most.
pub run : ℕ → (ℕ → Round) → ℕ → Progress
run zero rounds i = ([], false)
run (suc fuel) rounds i =
    let next = run fuel rounds (i + 1) in
    if (rounds i).done_before then ([], true) else after publish_call (after_call (rounds i) next)

abbrev pub is_call : Act → Bool
is_call publish_call = true
is_call _ = false

abbrev Returns : ℕ → Progress → Type 0
Returns calls p = (p.1 ≡ true) × (count_if is_call p.0 ≤ calls)

after_call-Returns :
    (r : Round) (calls : ℕ) (next : Progress)
    → Returns calls next
    → Returns calls (after_call r next)
unfolding after_call after wait_for_context report_error
after_call-Returns r calls next (returned, few) = (ground arith, ground arith)

-- A loop whose context is done by the beginning of round `i + n` returns within `n + 1` rounds,
-- after at most `n` publications.
pub run-returns :
    (n : ℕ) (rounds : ℕ → Round) (i : ℕ)
    → (rounds (i + n)).done_before ≡ true
    → ((run (suc n) rounds i).1 ≡ true) × (count_if is_call (run (suc n) rounds i).0 ≤ n)
unfolding run after
run-returns zero rounds i h =
    let same : i + 0 ≡ i = omega arith in
    let now : (rounds i).done_before ≡ true = subst (λ k. (rounds k).done_before ≡ true) same h in
    rw now (refl, omega arith)
run-returns (suc n) rounds i h =
    let next : Progress = run (suc n) rounds (i + 1) in
    let same : i + suc n ≡ i + 1 + n = omega arith in
    let rest : Returns n next =
      run-returns n rounds (i + 1) (subst (λ k. (rounds k).done_before ≡ true) same h) in
    let (returned, few) = after_call-Returns (rounds i) n next rest in
    if_cases (Returns (suc n)) (rounds i).done_before ([], true)
      (after publish_call (after_call (rounds i) next)) (λ now. (refl, omega arith))
      (λ later. (returned, omega (arith, few)))
