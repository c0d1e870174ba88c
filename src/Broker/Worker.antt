-- ===== src/Broker/Worker.antt =====
-- The broker as a worker meets it, alone with it on a connection: the context of each command is a
-- function of its number.
pub mod Drains
pub mod Dequeued
pub mod Balance
use distro_sync.Prelude.{ℕ, ◌+◌}
use distro_sync.Wal.{Codec}
use distro_sync.Broker.{Broker, Message, Response}
use distro_sync.Broker.Dispatch.{Context, dispatch}
use distro_sync.Worker.{Answer}

-- the `status` of a response, and the task
abbrev pub answer_of : {P : Type 0} → Response P → Answer P
answer_of (Response.delivered d) = Answer.delivered d
answer_of Response.empty = Answer.empty
answer_of (Response.error r) = Answer.refused
answer_of (Response.rate_limited hint) = Answer.refused
answer_of other = Answer.ok

abbrev pub answer : {P : Type 0} → ℕ → Broker P × Response P → (ℕ × Broker P) × Answer P
answer n (b, r) = ((n, b), answer_of r)

abbrev pub ask :
    {P : Type 0} → Codec P → (ℕ → Context) → ℕ × Broker P → Message P → (ℕ × Broker P) × Answer P
ask codec contexts (n, b) message = answer (n + 1) (dispatch codec (contexts n) message b)
