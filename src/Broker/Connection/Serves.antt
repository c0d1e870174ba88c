-- ===== src/Broker/Connection/Serves.antt =====
-- The loop against its description: the messages that arrived whole, one dispatch after the other.
use distro_sync.Prelude.{
  ℕ, zero, suc, ◌+◌, ◌≤◌, ◌<◌, ◌≡◌, refl, ap, ◌∙◌, false, List, [], ◌∷◌, ◌++◌, ltb, All, arith,
  length, take, get_or, length-take, map,
}
use mathlib.Core.List.{append_assoc}
use distro_sync.Wal.{Codec}
use distro_sync.Wire.{readexactly, frame}
use distro_sync.Wire.RoundTrip.{Prefix, frame-Short, readexactly-append, readexactly-Short}
use distro_sync.Broker.{Broker, Message, Response}
use distro_sync.Broker.Dispatch.{Context, dispatch}
use distro_sync.Broker.Connection.{Parsed, End, stop, write, serve, max_length}

-- a client's message, as it is before it is framed and as it is dispatched
pub record Request (P : Type 0) : Type 0 where
  pub raw : List ℕ
  pub message : Message P

-- the frames, one after the other
unfoldable pub frames : List (List ℕ) → List ℕ
frames [] = []
frames (raw ∷ raws) = get_or [] (frame raw) ++ frames raws

-- a frame that the client did not finish, or nothing
pub record IsCut (tail : List ℕ) : Type 0 where
  pub raw : List ℕ
  pub short : length raw ≤ max_length
  pub sent : ℕ
  pub unfinished : sent < length raw + 4
  pub cut : tail ≡ take sent (get_or [] (frame raw))

module _ {P : Type 0} (codec : Codec P) where
  -- the specification: dispatches, one after the other, and their responses
  unfoldable pub dispatch_all :
      List Context → List (Message P) → Broker P → Broker P × List (Response P)
  dispatch_all (x ∷ xs) (m ∷ ms) b =
      let (b', r) = dispatch codec x m b in let (b'', rs) = dispatch_all xs ms b' in (b'', r ∷ rs)
  dispatch_all xs ms b = (b, [])

module _ {P : Type 0} (codec : Codec P) (decode : List ℕ → Parsed P)
    (encode : Response P → List ℕ) where
  -- a response whose length has four bytes
  abbrev pub Fits : Response P → Type 0
  Fits r = length (encode r) < 4_294_967_296

  -- a message within the limit that parses
  abbrev pub IsRequest : Request P → Type 0
  IsRequest q = (length q.raw ≤ max_length) × (decode q.raw ≡ Parsed.object q.message)

  pub serve-request :
      (x : Context) (xs : List Context) (q : Request P) (rest : List ℕ) (b : Broker P)
      → IsRequest q
      → Fits (dispatch codec x q.message b).1
      → let (b', r) = dispatch codec x q.message b in
        serve codec decode encode (x ∷ xs) (get_or [] (frame q.raw) ++ rest) b
        ≡ write (get_or [] (frame (encode r))) (serve codec decode encode xs rest b')
  unfolding serve readexactly
  serve-request x xs q rest b h fits =
      let r = (dispatch codec x q.message b).1 in
      let (p, e) = frame-Short q.raw (omega (arith, h.0)) in
      let (p', e') = frame-Short (encode r) fits in
      let short : ltb max_length (length q.raw) ≡ false = ground (arith, h.0) in
      rw (e, e', p.read, short, readexactly-append q.raw rest, h.1, e') refl

  pub serve-IsCut :
      (x : Context) (xs : List Context) (tail : List ℕ) (b : Broker P)
      → IsCut tail
      → serve codec decode encode (x ∷ xs) tail b ≡ stop End.disconnected b
  unfolding serve readexactly
  serve-IsCut x xs tail b h =
      let (p, e) = frame-Short h.raw (omega (arith, h.short)) in
      rw (h.cut, e) (go p h.sent h.unfinished)
    where
      go :
          (p : Prefix (length h.raw)) (k : ℕ)
          → k < length h.raw + 4
          → serve codec decode encode (x ∷ xs) (take k (p.a ∷ p.b ∷ p.c ∷ p.d ∷ h.raw)) b
            ≡ stop End.disconnected b
      go p zero l = refl
      go p (suc zero) l = refl
      go p (suc (suc zero)) l = refl
      go p (suc (suc (suc zero))) l = refl
      go p (suc (suc (suc (suc k)))) l =
          let short : ltb max_length (length h.raw) ≡ false = ground (arith, h.short) in
          rw
            (
              p.read,
              short,
              readexactly-Short (length h.raw) (take k h.raw)
                  (omega (arith, l, length-take k h.raw)),
            )
            refl

  -- When a client sends some messages, each within 10 MB and an object whose fields have the types
  -- that the handlers take, and then disconnects, between two frames or in the middle of one, the
  -- loop dispatches exactly the messages that arrived whole, one after the other in their order,
  -- writes their responses, each in a frame, in the same order, and ends as disconnected. Each of
  -- these responses is shorter than 2 ^ 32 bytes, and there is a context for each message and one
  -- more.
  pub serve-dispatch_all :
      (xs : List Context) (qs : List (Request P)) (tail : List ℕ) (b : Broker P)
      → length qs < length xs
      → All IsRequest qs
      → IsCut tail
      → All Fits (dispatch_all codec xs (map (λ q. q.message) qs) b).1
      → let (b', rs) = dispatch_all codec xs (map (λ q. q.message) qs) b in
        serve codec decode encode xs (frames (map (λ q. q.raw) qs) ++ tail) b
        ≡ record { broker = b'; written = frames (map encode rs); end = End.disconnected }
  unfolding frames dispatch_all
  serve-dispatch_all [] qs tail b l h cut fits = absurd (omega (arith, l))
  serve-dispatch_all (x ∷ xs) [] tail b l h cut fits = serve-IsCut x xs tail b cut
  serve-dispatch_all (x ∷ xs) (q ∷ qs) tail b l h cut fits =
      let (b', r) = dispatch codec x q.message b in
      ap (λ s. serve codec decode encode (x ∷ xs) s b)
        (append_assoc (get_or [] (frame q.raw)) (frames (map (λ q. q.raw) qs)) tail)
      ∙ serve-request x xs q (frames (map (λ q. q.raw) qs) ++ tail) b h.0 fits.0
      ∙ ap (write (get_or [] (frame (encode r))))
          (serve-dispatch_all xs qs tail b' (omega (arith, l)) h.1 cut fits.1)
