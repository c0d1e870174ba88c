-- ===== src/Producer/Loop.antt =====
-- The loop of `produce` ends, after at most `max_retries + 1` commands, and how.
use distro_sync.Prelude.{ℕ, zero, suc, ◌+◌, ◌≤◌, ◌<◌, ◌≡◌, refl, Option, none, some, length, arith}
use distro_sync.Backoff
use distro_sync.Backoff.{ExponentialBackoff, next_wait, advance}
use distro_sync.Backoff.Bounds.{IsDraw, next_wait_bounds, next_wait_exhausted}
use distro_sync.Producer.{Answer, Result, Trace, hint_of, respond, wait_then, produce_loop, produce}

-- What an answer other than `rate_limited` makes of the call.
abbrev pub outcome : Answer → Option Result
outcome (Answer.ok id) = some (Result.submitted id)
outcome (Answer.rate_limited hint) = none
outcome (Answer.error reason) = some (Result.rejected reason)
outcome Answer.lost = some Result.connection_error

-- A call that ends with the result, in a state with the property, after `n` waits.
abbrev pub Ends : {S : Type 0} → Result → (S → Type 0) → ℕ → Option (Trace S) → Type 0
Ends r Q n none = ⊥
Ends r Q n (some t) = (t.result ≡ r) × Q t.state × (length t.waits ≡ n)

module _ {S : Type 0} where
  Ends-wait_then :
      (d : ℕ) (r : Result) (Q : S → Type 0) (n : ℕ) (o : Option (Trace S))
      → Ends r Q n o
      → Ends r Q (suc n) (wait_then d o)
  Ends-wait_then d r Q n none h = h
  Ends-wait_then d r Q n (some t) h = (h.0, h.1, omega (arith, h.2))

  module _ (sleep : ℕ → S → S) (draws : S → ℕ → ℕ)
      (rest : S → ExponentialBackoff → Option (Trace S)) (s : S) (b : ExponentialBackoff) where
    -- While attempts are left, a rate limit is followed by a wait that is as long as its hint.
    pub respond-limited :
        (hint : Option ℕ) (r : Result) (Q : S → Type 0) (n : ℕ)
        → IsDraw (draws s)
        → b.attempt < b.max_attempts
        → ((d : ℕ) → hint_of hint ≤ d → Ends r Q n (rest (sleep d s) (advance b)))
        → Ends r Q (suc n) (respond sleep draws rest b (s, Answer.rate_limited hint))
    respond-limited hint r Q n fair h ends =
        let (d, p, le, _) = next_wait_bounds (draws s) (some (hint_of hint)) b fair h in
        rw p (Ends-wait_then d r Q n (rest (sleep d s) (advance b)) (ends d le))

    respond-exhausted :
        (a : Answer) (Q : S → Type 0)
        → outcome a ≡ none
        → b.max_attempts ≤ b.attempt
        → Q s
        → Ends Result.exhausted Q 0 (respond sleep draws rest b (s, a))
    respond-exhausted (Answer.rate_limited hint) Q e h q =
        rw (next_wait_exhausted (draws s) (some (hint_of hint)) b h) (refl, q, refl)
    respond-exhausted a Q e h q = cc

    pub respond-outcome :
        (a : Answer) (r : Result) (Q : S → Type 0)
        → outcome a ≡ some r
        → Q s
        → Ends r Q 0 (respond sleep draws rest b (s, a))
    respond-outcome (Answer.rate_limited hint) r Q e q = cc
    respond-outcome (Answer.ok id) r Q e q = (ground arith, q, refl)
    respond-outcome (Answer.error id) r Q e q = (ground arith, q, refl)
    respond-outcome Answer.lost r Q e q = (ground arith, q, refl)

-- The answers to the commands, by their numbers: the state is the number of the next command.
abbrev pub scripted : {P : Type 0} → (ℕ → Answer) → P → ℕ → ℕ × Answer
scripted answers p n = (n + 1, answers n)

abbrev pub untimed : ℕ → ℕ → ℕ
untimed d n = n

-- the first `k` answers from the `n`th on are rate limits
abbrev pub AllLimited : (ℕ → Answer) → ℕ → ℕ → Type 0
AllLimited answers zero n = Unit
AllLimited answers (suc k) n = (outcome (answers n) ≡ none) × AllLimited answers k (n + 1)

module _ {P : Type 0} (p : P) (draws : ℕ → ℕ → ℕ) (answers : ℕ → Answer)
    (fair : (n : ℕ) → IsDraw (draws n)) where
  abbrev loop : ℕ → ℕ → ExponentialBackoff → Option (Trace ℕ)
  loop = produce_loop untimed draws (scripted {P = P} answers) p

  one_more :
      (rest : ℕ → ExponentialBackoff → Option (Trace ℕ)) (n k : ℕ) (b : ExponentialBackoff)
      (a : Answer) (r : Result) (Q : ℕ → Type 0)
      → outcome a ≡ none
      → b.attempt < b.max_attempts
      → Ends r Q k (rest (n + 1) (advance b))
      → Ends r Q (suc k) (respond untimed draws rest b (n + 1, a))
  one_more rest n k b (Answer.rate_limited hint) r Q e h ends =
      respond-limited untimed draws rest (n + 1) b hint r Q k (fair (n + 1)) h (λ d le. ends)
  one_more rest n k b a r Q e h ends = cc

  loop-outcome :
      (k fuel n last : ℕ) (b : ExponentialBackoff) (r : Result)
      → AllLimited answers k n
      → k < fuel
      → n + k ≡ last
      → b.attempt + k ≤ b.max_attempts
      → outcome (answers last) ≡ some r
      → Ends r (λ m. m ≡ last + 1) k (loop fuel n b)
  unfolding produce_loop
  loop-outcome k zero n last b r l f m h e = elim f [ ]
  loop-outcome zero (suc fuel) n last b r l f m h e =
      let here : last ≡ n = omega arith in
      respond-outcome untimed draws (loop fuel) (n + 1) b (answers n) r (λ m. m ≡ last + 1)
        (rw here at e) (omega arith)
  loop-outcome (suc k) (suc fuel) n last b r l f m h e =
      one_more (loop fuel) n k b (answers n) r (λ m. m ≡ last + 1) l.0 (omega arith)
        (loop-outcome k fuel (n + 1) last (advance b) r l.1 (omega arith) (omega arith)
          (omega arith) e)

  loop-exhausted :
      (k fuel n last : ℕ) (b : ExponentialBackoff)
      → AllLimited answers (suc k) n
      → k < fuel
      → n + k ≡ last
      → b.attempt + k ≡ b.max_attempts
      → Ends Result.exhausted (λ m. m ≡ last + 1) k (loop fuel n b)
  unfolding produce_loop
  loop-exhausted k zero n last b l f m h = elim f [ ]
  loop-exhausted zero (suc fuel) n last b l f m h =
      respond-exhausted untimed draws (loop fuel) (n + 1) b (answers n) (λ m. m ≡ last + 1) l.0
        (omega arith) (omega arith)
  loop-exhausted (suc k) (suc fuel) n last b l f m h =
      one_more (loop fuel) n k b (answers n) Result.exhausted (λ m. m ≡ last + 1) l.0 (omega arith)
        (loop-exhausted k fuel (n + 1) last (advance b) l.1 (omega arith) (omega arith)
          (omega arith))

  -- A submission that is rate-limited `k` times, and is allowed so many retries, ends with the
  -- first other answer: the id, or the error that it raises. It has waited `k` times and sent `k +
  -- 1` commands. The draws are within their ranges.
  pub produce-outcome :
      (max_retries n k : ℕ) (r : Result)
      → k ≤ max_retries
      → AllLimited answers k n
      → outcome (answers (n + k)) ≡ some r
      → Ends r
          (λ m. m ≡ n + k + 1)
          k
          (produce untimed draws (scripted {P = P} answers) p max_retries n)
  produce-outcome max_retries n k r le l e =
      unfold produce in
      loop-outcome k (suc max_retries) n (n + k) (Backoff.init max_retries) r l (omega arith) refl
        (omega arith) e

  -- A submission that is rate-limited every time gives up after `max_retries` waits and
  -- `max_retries + 1` commands. The draws are within their ranges.
  pub produce-exhausted :
      (max_retries n : ℕ)
      → AllLimited answers (suc max_retries) n
      → Ends Result.exhausted
          (λ m. m ≡ n + max_retries + 1)
          max_retries
          (produce untimed draws (scripted {P = P} answers) p max_retries n)
  produce-exhausted max_retries n l =
      unfold produce in
      loop-exhausted max_retries (suc max_retries) n (n + max_retries) (Backoff.init max_retries) l
        (omega arith) refl (omega arith)
