-- ===== src/Producer/Client.antt =====
-- The connection of a `ProducerClient` of producer/client.py, and its `async with`. Whether
-- `asyncio.open_connection` gets a connection is an argument.
use distro_sync.Prelude.{
  ℕ, ◌+◌, String, ◌≡◌, refl, Bool, true, false, ◌&&◌, Option, none, some, arith, if◌then◌else◌,
}

-- `has_writer` is `_writer is not None`; `opened` and `closed` count the connections that the client
-- has opened and closed.
pub record ProducerClient : Type 0 where
  pub host : String
  pub port : ℕ
  pub has_writer : Bool
  pub connected : Bool
  pub opened : ℕ
  pub closed : ℕ

abbrev pub init : String → ℕ → ProducerClient
init host port = record {
  host = host;
  port = port;
  has_writer = false;
  connected = false;
  opened = 0;
  closed = 0;
}

-- what is raised, if something is, leaves the fields as they were
unfoldable pub connect : Bool → ProducerClient → ProducerClient × Bool
connect true w = (record w { has_writer = true; connected = true; opened = w.opened + 1 }, true)
connect false w = (w, false)

-- `wait_closed` is taken not to raise
unfoldable pub close : ProducerClient → ProducerClient
close w =
    if w.has_writer && w.connected then record w { connected = false; closed = w.closed + 1 } else w

unfoldable pub is_connected : ProducerClient → Bool
is_connected w = w.connected

-- `__aenter__` and `__aexit__`: the body runs on the connected client and returns a value or raises;
-- without a connection neither it nor the exit runs
unfoldable pub async_with :
    {R : Type 0}
    → Bool
    → (ProducerClient → ProducerClient × R)
    → ProducerClient
    → ProducerClient × Option R
async_with opens body w = leave body (connect opens w)
  where
    leave :
        {R : Type 0}
        → (ProducerClient → ProducerClient × R)
        → ProducerClient × Bool
        → ProducerClient × Option R
    leave body (v, false) = (v, none)
    leave body (v, true) = let (u, r) = body v in (close u, some r)

-- A connection that was opened is closed, or the client is connected.
pub record IsBalanced (w : ProducerClient) : Type 0 where
  pub writer : w.connected ≡ true → w.has_writer ≡ true
  pub count : w.opened ≡ w.closed + (if w.connected then 1 else 0)

init-IsBalanced : (host : String) (port : ℕ) → IsBalanced (init host port)
init-IsBalanced host port = record { writer = λ e. absurd (ground (arith, e)); count = refl }

abbrev IsClosed : ProducerClient → Type 0
IsClosed w = (w.connected ≡ false) × (w.opened ≡ w.closed)

close-IsClosed : (w : ProducerClient) → IsBalanced w → IsClosed (close w)
unfolding close
close-IsClosed w h = (ground (arith, h.writer), ground (arith, h.writer, h.count))

-- After `async with` on a client without a connection every connection that was opened is closed,
-- whatever the body returns or raises, if the body does not lose a connection itself.
async_with-IsClosed :
    {R : Type 0} (opens : Bool) (body : ProducerClient → ProducerClient × R) (w : ProducerClient)
    → IsBalanced w
    → w.connected ≡ false
    → ((v : ProducerClient) → IsBalanced v → IsBalanced (body v).0)
    → IsClosed (async_with opens body w).0
unfolding async_with connect
async_with-IsClosed false body w h e keeps = (e, ground (arith, h.count, e))
async_with-IsClosed true body w h e keeps =
    close-IsClosed _ (keeps _ (record { writer = λ on. refl; count = ground (arith, h.count, e) }))
