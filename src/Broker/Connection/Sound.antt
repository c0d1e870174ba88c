-- ===== src/Broker/Connection/Sound.antt =====
-- What a connection does to the broker is a run of the broker's steps.
use distro_sync.Prelude.{ℕ, ◌≡◌, false, Option, none, some, List, [], ◌∷◌, All, ◌==◌}
use distro_sync.Queue.Copies.{copies}
use distro_sync.Wal.{Codec}
use distro_sync.Wire.{from_bytes, readexactly}
use distro_sync.Broker.{Broker, Response}
use distro_sync.Broker.Dispatch.{Context}
use distro_sync.Broker.Durable.Reach.{Reach, IsSound}
use distro_sync.Broker.Connection.{Parsed, Session}

-- The uuids of the contexts are new and differ.
abbrev pub AreFresh : {P : Type 0} → List Context → Broker P → Type 0
AreFresh [] b = Unit
AreFresh (x ∷ xs) b =
    (copies x.uuid b.queue_manager ≡ 0) × All (λ y. (x.uuid == y.uuid) ≡ false) xs × AreFresh xs b

-- Where a handler raises an exception on the types of the fields, it has changed nothing yet.
abbrev pub IsHarmless : {P : Type 0} → Parsed P → Type 0
IsHarmless {P} (Parsed.ill_typed changed) = (b : Broker P) → changed b ≡ b
IsHarmless other = Unit

module _ {P : Type 0} (c : Codec P) (decode : List ℕ → Parsed P)
    (encode : Response P → List ℕ) where
  -- for a message, and for a length and the message after it
  abbrev pub InMessage : (List ℕ → Type 0) → Option (List ℕ × List ℕ) → Type 0
  InMessage rest none = Unit
  InMessage rest (some (raw, stream)) = IsHarmless (decode raw) × rest stream

  abbrev pub InLength : (List ℕ → Type 0) → Option (List ℕ × List ℕ) → Type 0
  InLength rest none = Unit
  InLength rest (some (raw, stream)) = InMessage rest (readexactly (from_bytes raw) stream)

  -- so are the messages that the stream brings
  abbrev pub AreHarmless : List Context → List ℕ → Type 0
  AreHarmless [] stream = Unit
  AreHarmless (x ∷ xs) stream = InLength (λ rest. AreHarmless xs rest) (readexactly 4 stream)

  module _ (b₀ : Broker P) (sound : IsSound c b₀) where
    -- what the rest of the session must keep
    abbrev Keeps : List Context → (List ℕ → Broker P → Session P) → Type 0
    Keeps xs rest =
        (stream : List ℕ) (b : Broker P)
        → AreHarmless xs stream
        → Reach c b₀ b
        → AreFresh xs b
        → Reach c b₀ (rest stream b).broker
