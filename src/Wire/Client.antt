-- ===== src/Wire/Client.antt =====
-- `_send` of producer/client.py and of worker/base_worker.py: one message, and its response. What
-- the broker sends on the connection, from now on, is a stream.
use distro_sync.Prelude.{Bool, true, false, Option, none, some, List, [], ℕ}
use distro_sync.Wire.{frame, read_frame}

-- The exceptions: the ConnectionError, the OverflowError of `to_bytes`, the IncompleteReadError, and
-- what `json.loads` raises.
pub data Failure : Type 0 where
  not_connected too_long incomplete invalid_response : Failure

pub data Result (R : Type 0) : Type 0 where
  raised : Failure → Result R
  returned : R → Result R

-- what was written, how the call ends, and what is still to be read
pub record Exchange (R : Type 0) : Type 0 where
  pub written : List ℕ
  pub result : Result R
  pub unread : List ℕ

module _ {M R : Type 0} (dumps : M → List ℕ) (loads : List ℕ → Option R) where
  abbrev pub parsed : Option R → Result R
  parsed none = Result.raised Failure.invalid_response
  parsed (some r) = Result.returned r

  abbrev pub received : List ℕ → List ℕ → Option (List ℕ × List ℕ) → Exchange R
  received w stream none = record {
    written = w;
    result = Result.raised Failure.incomplete;
    unread = [];
  }
  received w stream (some (raw_resp, rest)) = record {
    written = w;
    result = parsed (loads raw_resp);
    unread = rest;
  }

  abbrev pub exchange : List ℕ → Option (List ℕ) → Exchange R
  exchange stream none = record {
    written = [];
    result = Result.raised Failure.too_long;
    unread = stream;
  }
  exchange stream (some w) = received w stream (read_frame stream)

  unfoldable pub send : Bool → M → List ℕ → Exchange R
  send false message stream = record {
    written = [];
    result = Result.raised Failure.not_connected;
    unread = stream;
  }
  send true message stream = exchange stream (frame (dumps message))
