-- ===== src/Wire.antt =====
-- The framing of the wire protocol: broker/server.py, producer/client.py and worker/base_worker.py
-- send a message as four bytes with its length, the most significant first, and the message. A
-- stream is the list of the bytes that are still to be read, up to the end of the connection.
pub mod RoundTrip
pub mod Client
use distro_sync.Prelude.{
  ℕ, zero, suc, ◌+◌, ◌*◌, ◌/◌, ◌%◌, Option, none, some, List, [], ◌∷◌, ◌++◌, length, if◌then◌else◌,
  ltb,
}

-- `len(encoded).to_bytes(4, byteorder="big")`, which raises an OverflowError from 2 ^ 32 on
unfoldable pub to_bytes : ℕ → Option (List ℕ)
to_bytes n =
    if ltb n 4_294_967_296
    then some (n / 16_777_216 ∷ n / 65_536 % 256 ∷ n / 256 % 256 ∷ n % 256 ∷ [])
    else none

-- `int.from_bytes(raw, byteorder="big")`
abbrev pub from_bytes_onto : ℕ → List ℕ → ℕ
from_bytes_onto n [] = n
from_bytes_onto n (b ∷ bs) = from_bytes_onto (n * 256 + b) bs

abbrev pub from_bytes : List ℕ → ℕ
from_bytes bs = from_bytes_onto 0 bs

abbrev pub with_byte : ℕ → Option (List ℕ × List ℕ) → Option (List ℕ × List ℕ)
with_byte b none = none
with_byte b (some (raw, rest)) = some (b ∷ raw, rest)

-- `reader.readexactly(n)`: the bytes, and the rest of the stream; an IncompleteReadError is none
unfoldable pub readexactly : ℕ → List ℕ → Option (List ℕ × List ℕ)
readexactly zero bs = some ([], bs)
readexactly (suc n) [] = none
readexactly (suc n) (b ∷ bs) = with_byte b (readexactly n bs)

abbrev pub prefixed : List ℕ → Option (List ℕ) → Option (List ℕ)
prefixed encoded none = none
prefixed encoded (some length_prefix) = some (length_prefix ++ encoded)

-- `length_prefix + encoded`
unfoldable pub frame : List ℕ → Option (List ℕ)
frame encoded = prefixed encoded (to_bytes (length encoded))

abbrev pub read_body : Option (List ℕ × List ℕ) → Option (List ℕ × List ℕ)
read_body none = none
read_body (some (raw_len, rest)) = readexactly (from_bytes raw_len) rest

-- how a client reads a response
unfoldable pub read_frame : List ℕ → Option (List ℕ × List ℕ)
read_frame stream = read_body (readexactly 4 stream)
