-- ===== src/Producer.antt =====
-- `produce` and `produce_batch` of producer/client.py. What a PRODUCE command meets is a state and a
-- function on it, `send`, which gives the broker's answer; `sleep` is the wait, in milliseconds, and
-- `draws` gives its random draw. The loop has fuel; `Producer.Loop` shows how much is enough.
pub mod Loop
pub mod Client
use distro_sync.Prelude.{ℕ, zero, suc, ◌+◌, String, Option, none, some, List, [], ◌∷◌, ◌++◌, get_or}
use distro_sync.Backoff
use distro_sync.Backoff.{ExponentialBackoff, next_wait}

-- The responses by their `status`; `rate_limited` has the hint, if it is there, and `lost` is a
-- connection that fails.
pub data Answer : Type 0 where
  ok : String → Answer
  rate_limited : Option ℕ → Answer
  error : String → Answer
  lost : Answer

-- How a call ends: the task's id, or what it raises.
pub data Result : Type 0 where
  submitted : String → Result
  exhausted : Result
  rejected : String → Result
  connection_error : Result

-- The end, the state then, and the waits in between.
pub record Trace (S : Type 0) : Type 0 where
  pub result : Result
  pub state : S
  pub waits : List ℕ

-- `response.get("retry_after_seconds", 1.0)`
abbrev pub hint_of : Option ℕ → ℕ
hint_of hint = get_or 1000 hint

module _ {S : Type 0} where
  abbrev pub stop : Result → S → Option (Trace S)
  stop r s = some (record { result = r; state = s; waits = [] })

  abbrev pub wait_then : ℕ → Option (Trace S) → Option (Trace S)
  wait_then d none = none
  wait_then d (some t) = some (record t { waits = d ∷ t.waits })

module _ {S : Type 0} (sleep : ℕ → S → S) (draws : S → ℕ → ℕ) where
  -- the rest of the loop comes after the wait
  abbrev pub retry :
      (S → ExponentialBackoff → Option (Trace S))
      → S
      → ExponentialBackoff × Option ℕ
      → Option (Trace S)
  retry rest s (b, none) = stop Result.exhausted s
  retry rest s (b, some d) = wait_then d (rest (sleep d s) b)

  abbrev pub respond :
      (S → ExponentialBackoff → Option (Trace S))
      → ExponentialBackoff
      → S × Answer
      → Option (Trace S)
  respond rest b (s, Answer.ok id) = stop (Result.submitted id) s
  respond rest b (s, Answer.rate_limited hint) =
      retry rest s (next_wait (draws s) (some (hint_of hint)) b)
  respond rest b (s, Answer.error reason) = stop (Result.rejected reason) s
  respond rest b (s, Answer.lost) = stop Result.connection_error s

-- the ids of the batch, or the result that ends it early
abbrev pub collect : String → List String × Option Result → List String × Option Result
collect id (ids, e) = (id ∷ ids, e)

abbrev pub batch_step :
    {S : Type 0} → (S → List String × Option Result) → Trace S → List String × Option Result
batch_step rest t = elim t.result [
  | Result.submitted id ↦ collect id (rest t.state)
  | other ↦ ([], some other)
]

module _ {S P : Type 0} (sleep : ℕ → S → S) (draws : S → ℕ → ℕ) (send : P → S → S × Answer) where
  -- the `while True` of `produce`, for one payload
  unfoldable pub produce_loop : P → ℕ → S → ExponentialBackoff → Option (Trace S)
  produce_loop p zero s b = none
  produce_loop p (suc fuel) s b =
      respond sleep draws (λ s' b'. produce_loop p fuel s' b') b (send p s)

  unfoldable pub produce : P → ℕ → S → Option (Trace S)
  unfolding produce_loop
  produce p max_retries s = produce_loop p (suc max_retries) s (Backoff.init max_retries)

  -- `produce` has its default of 10 retries
  unfoldable pub produce_batch : List P → S → List String × Option Result
  produce_batch [] s = ([], none)
  produce_batch (p ∷ ps) s = elim (produce p 10 s) [
    | none ↦ ([], none)
    | some t ↦ batch_step (λ s'. produce_batch ps s') t
  ]
