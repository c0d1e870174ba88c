-- ===== src/Broker/Connection/Ends.antt =====
-- The loop ends: every round reads four bytes at least.
use distro_sync.Prelude.{
  ℕ, zero, suc, ◌+◌, ◌*◌, ◌<◌, ◌≡◌, refl, Bool, true, false, Option, none, some, List, [], ◌∷◌,
  if◌then◌else◌, ltb, arith, length, Option-cases, inl, inr,
}
use distro_sync.Wal.{Codec}
use distro_sync.Wire.{from_bytes, readexactly}
use distro_sync.Broker.{Broker, Reason, Response}
use distro_sync.Broker.Dispatch.{Context, dispatch}
use distro_sync.Broker.Connection.{
  Parsed, End, Session, stop, written_or_failed, send_response, on_parsed, on_message, on_length,
  serve, max_length,
}

readexactly-length :
    (n : ℕ) (bs raw rest : List ℕ)
    → readexactly n bs ≡ some (raw, rest)
    → length bs ≡ n + length rest
unfolding readexactly
readexactly-length zero bs raw rest e = ground (arith, e)
readexactly-length (suc n) [] raw rest e = absurd (ground (arith, e))
readexactly-length (suc n) (b ∷ bs) raw rest e = elim (Option-cases (readexactly n bs)) [
  | inl none' ↦ absurd (ground (arith, e, none'))
  | inr ((raw', rest'), e') ↦ ground (arith, e, e', readexactly-length n bs raw' rest' e')
]

-- the connection was left
abbrev pub IsOver : End → Type 0
IsOver End.serving = ⊥
IsOver other = Unit

module _ {P : Type 0} (c : Codec P) (decode : List ℕ → Parsed P)
    (encode : Response P → List ℕ) where
  module _ (n : ℕ) (rest : List ℕ → Broker P → Session P)
      (ends : (stream : List ℕ) (b : Broker P) → length stream < n → IsOver (rest stream b).end)
      (x : Context) (b : Broker P) where
    written_or_failed-IsOver :
        (o : Option (List ℕ)) (b' : Broker P) (s : Session P)
        → IsOver s.end
        → IsOver (written_or_failed o b' s).end
    written_or_failed-IsOver none b' s h = tt
    written_or_failed-IsOver (some w) b' s h = h

    on_parsed-IsOver :
        (stream : List ℕ) (p : Parsed P)
        → length stream < n
        → IsOver (on_parsed c decode encode rest x stream b p).end
    on_parsed-IsOver stream Parsed.invalid l =
        written_or_failed-IsOver _ b (rest stream b) (ends stream b l)
    on_parsed-IsOver stream Parsed.no_object l = tt
    on_parsed-IsOver stream (Parsed.ill_typed changed) l = tt
    on_parsed-IsOver stream (Parsed.object m) l =
        let b' = (dispatch c x m b).0 in
        written_or_failed-IsOver _ b' (rest stream b') (ends stream b' l)

    on_message-IsOver :
        (k : ℕ) (bs : List ℕ) (o : Option (List ℕ × List ℕ))
        → readexactly k bs ≡ o
        → length bs < n
        → IsOver (on_message c decode encode rest x b o).end
    on_message-IsOver k bs none e l = tt
    on_message-IsOver k bs (some (raw, stream)) e l =
        on_parsed-IsOver stream (decode raw)
          (omega (arith, l, readexactly-length k bs raw stream e))

    on_length-IsOver :
        (bs : List ℕ) (o : Option (List ℕ × List ℕ))
        → readexactly 4 bs ≡ o
        → length bs < 4 + n
        → IsOver (on_length c decode encode rest x b o).end
    on_length-IsOver bs none e l = tt
    on_length-IsOver bs (some (raw, stream)) e l = go (ltb max_length (from_bytes raw))
      where
        go :
            (t : Bool)
            → IsOver
                (if t
                  then send_response c decode encode
                      (Response.error Reason.message_too_large)
                      b
                      (stop End.oversized b)
                  else on_message c decode encode rest x b
                      (readexactly (from_bytes raw) stream)).end
        go true = written_or_failed-IsOver _ b (stop End.oversized b) tt
        go false =
            on_message-IsOver (from_bytes raw) stream _ refl
              (omega (arith, l, readexactly-length 4 bs raw stream e))

  -- The loop of a connection ends, with the client gone, with a length over the limit or with an
  -- exception, after as many rounds as there are four bytes in the stream, and one: with so many
  -- contexts it is not still serving.
  pub serve-IsOver :
      (xs : List Context) (stream : List ℕ) (b : Broker P)
      → length stream < 4 * length xs
      → IsOver (serve c decode encode xs stream b).end
  unfolding serve
  serve-IsOver [] stream b l = absurd (omega (arith, l))
  serve-IsOver (x ∷ xs) stream b l =
      on_length-IsOver (4 * length xs) (λ rest b'. serve c decode encode xs rest b')
        (λ s b' h. serve-IsOver xs s b' h) x b stream _ refl (omega (arith, l))
