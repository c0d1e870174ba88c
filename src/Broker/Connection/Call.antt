-- ===== src/Broker/Connection/Call.antt =====
-- A client's `_send` and the broker's loop, together.
use distro_sync.Prelude.{
  ℕ, ◌≤◌, ◌<◌, ◌≡◌, refl, true, ap, sym, ◌∙◌, some, List, [], ◌∷◌, ◌++◌, Option, get_or, arith,
  length,
}
use mathlib.Core.List.{append-nil}
use distro_sync.Wal.{Codec}
use distro_sync.Wire.{frame}
use distro_sync.Wire.Client.{Result, send}
use distro_sync.Wire.RoundTrip.{read_frame-frame, frame-Short}
use distro_sync.Broker.{Broker, Message, Response}
use distro_sync.Broker.Dispatch.{Context, dispatch}
use distro_sync.Broker.Connection.{Parsed, End, serve, stop, write, max_length}
use distro_sync.Broker.Connection.Serves.{IsCut, serve-request, serve-IsCut}

nothing : IsCut []
nothing = record { raw = []; short = omega arith; sent = 0; unfinished = omega arith; cut = refl }

module _ {P M R : Type 0} (codec : Codec P) (decode : List ℕ → Parsed P)
    (encode : Response P → List ℕ) (dumps : M → List ℕ) (loads : List ℕ → Option R) where
  -- a response that is there, whatever follows it
  send-frame :
      (m : M) (raw rest : List ℕ) (r : R)
      → length (dumps m) < 4_294_967_296
      → length raw < 4_294_967_296
      → loads raw ≡ some r
      → send dumps loads true m (get_or [] (frame raw) ++ rest) ≡ record {
        written = get_or [] (frame (dumps m));
        result = Result.returned r;
        unread = rest;
      }
  unfolding send
  send-frame m raw rest r h h' reads =
      let (p, e) = frame-Short (dumps m) h in
      let (w', e', back) = read_frame-frame raw rest h' in rw (e, e', back, reads) refl

  -- A client that is connected and sends a message, within 10 MB and such that the broker parses
  -- it as an object whose fields have the types that the handlers take, gets from `_send` what the
  -- broker's dispatch of that message responds, with nothing left to read, and the broker's state
  -- is that after the dispatch. That response is shorter than 2 ^ 32 bytes, and the client's
  -- parser reads what the broker prints of it.
  pub send-serve :
      (x y : Context) (m : M) (message : Message P) (answer : R) (b : Broker P)
      → (let r = (dispatch codec x message b).1 in
          (length (encode r) < 4_294_967_296) × (loads (encode r) ≡ some answer))
      → decode (dumps m) ≡ Parsed.object message
      → length (dumps m) ≤ max_length
      → let (b', r) = dispatch codec x message b in
        let s = serve codec decode encode (x ∷ y ∷ []) (get_or [] (frame (dumps m))) b in
        (s.broker ≡ b')
        × (send dumps loads true m s.written ≡ record {
          written = get_or [] (frame (dumps m));
          result = Result.returned answer;
          unread = [];
        })
  send-serve x y m message answer b (fits, reads) parses short =
      let (b', r) = dispatch codec x message b in
      let w = get_or [] (frame (dumps m)) in
      let served : serve codec decode encode (x ∷ y ∷ []) w b
          ≡ write (get_or [] (frame (encode r))) (stop End.disconnected b') =
        ap (λ s. serve codec decode encode (x ∷ y ∷ []) s b) (sym (append-nil w))
        ∙ serve-request codec decode encode x (y ∷ []) (record { raw = dumps m; message = message })
            [] b (short, parses) fits
        ∙ ap (write (get_or [] (frame (encode r))))
            (serve-IsCut codec decode encode y [] [] b' nothing) in
      (
        ap (λ s. s.broker) served,
        ap (λ s. send dumps loads true m s.written) served
            ∙ send-frame m (encode r) [] answer (omega (arith, short)) fits reads,
      )
