-- ===== src/Wire/RoundTrip.antt =====
-- What is written is what is read.
use distro_sync.Prelude.{
  ℕ, zero, suc, ◌/◌, ◌%◌, ◌≤◌, ◌<◌, ◌≡◌, refl, none, some, List, [], ◌∷◌, ◌++◌, length, arith, ap,
  ◌∙◌,
}
use distro_sync.Wire.{to_bytes, from_bytes, readexactly, frame, read_frame}

pub readexactly-append : (bs rest : List ℕ) → readexactly (length bs) (bs ++ rest) ≡ some (bs, rest)
unfolding readexactly
readexactly-append [] rest = refl
readexactly-append (b ∷ bs) rest = rw (readexactly-append bs rest) refl

pub readexactly-Short : (n : ℕ) (bs : List ℕ) → length bs < n → readexactly n bs ≡ none
unfolding readexactly
readexactly-Short zero bs h = absurd (omega (arith, h))
readexactly-Short (suc n) [] h = refl
readexactly-Short (suc n) (b ∷ bs) h = rw (readexactly-Short n bs (omega (arith, h))) refl

-- the four bytes of a length
pub record Prefix (n : ℕ) : Type 0 where
  pub a : ℕ
  pub b : ℕ
  pub c : ℕ
  pub d : ℕ
  pub wrote : to_bytes n ≡ some (a ∷ b ∷ c ∷ d ∷ [])
  pub read : from_bytes (a ∷ b ∷ c ∷ d ∷ []) ≡ n

pub prefix_of : (n : ℕ) → n < 4_294_967_296 → Prefix n
unfolding to_bytes
prefix_of n h = record {
  a = n / 16_777_216;
  b = n / 65_536 % 256;
  c = n / 256 % 256;
  d = n % 256;
  wrote = ground (arith, h);
  read = omega arith;
}

-- A message that is short enough for its prefix.
pub frame-Short :
    (raw : List ℕ)
    → length raw < 4_294_967_296
    → (p : Prefix (length raw)) × (frame raw ≡ some (p.a ∷ p.b ∷ p.c ∷ p.d ∷ raw))
unfolding frame
frame-Short raw h = let p = prefix_of (length raw) h in (p, rw (frame, p.wrote) refl)

frame-Long : (raw : List ℕ) → 4_294_967_296 ≤ length raw → frame raw ≡ none
unfolding frame to_bytes
frame-Long raw h = ground (arith, h)

-- what a reader finds behind a prefix
pub readexactly-Prefix :
    {n : ℕ} (p : Prefix n) (rest : List ℕ)
    → readexactly 4 (p.a ∷ p.b ∷ p.c ∷ p.d ∷ rest) ≡ some (p.a ∷ p.b ∷ p.c ∷ p.d ∷ [], rest)
unfolding readexactly
readexactly-Prefix p rest = refl

pub read_frame-Prefix :
    {n : ℕ} (p : Prefix n) (rest : List ℕ)
    → read_frame (p.a ∷ p.b ∷ p.c ∷ p.d ∷ rest) ≡ readexactly n rest
unfolding read_frame readexactly
read_frame-Prefix p rest = ap (λ n. readexactly n rest) p.read

-- A message of fewer than 2 ^ 32 bytes has a frame, and a reader of the frame, whatever follows
-- it, gets the message back and leaves what follows.
pub read_frame-frame :
    (raw rest : List ℕ)
    → length raw < 4_294_967_296
    → (w : List ℕ) × (frame raw ≡ some w) × (read_frame (w ++ rest) ≡ some (raw, rest))
read_frame-frame raw rest h =
    let (p, e) = frame-Short raw h in
    (
      p.a ∷ p.b ∷ p.c ∷ p.d ∷ raw,
      e,
      read_frame-Prefix p (raw ++ rest) ∙ readexactly-append raw rest,
    )
