-- ===== src/Codec/Laws.antt =====
-- What each read of the cursor returns on the bytes that the encoder wrote.
use kovanica_node.Common.{
  ℕ, ◌*◌, ◌^◌, ◌≤◌, ◌<◌, ◌≡◌, refl, ap, List, [], ◌∷◌, ◌++◌, arith, Result, ok, err, zero, suc,
  length, flat_map, All, length-append, take-append_left, drop-append_left, to_le_bytes,
  from_le_bytes, length-to_le_bytes, from_le_bytes-to_le_bytes,
}
use mathlib.Core.List.{append_assoc}
use kovanica_node.Codec.{
  Parser, continue, pure, ◌>>=◌, read_array, read_u8, read_u32, read_u64, bounded_count, read_count,
  read_many,
}

module _ {E A B : Type 0} where
  -- One step of a `do` block whose read succeeds.
  pub step :
      (m : Parser E A) (f : A → Parser E B) {buf buf' : List ℕ} {a : A} {r : Result E (B × List ℕ)}
      → m buf ≡ ok (a, buf')
      → f a buf' ≡ r
      → (m >>= f) buf ≡ r
  unfolding ◌>>=◌
  step m f e h = rw (e, ◌>>=◌) h

module _ {E A B : Type 0} where
  continue-eq-ok :
      (x : Result E (A × List ℕ)) (f : A → Parser E B) {r : B × List ℕ}
      → continue x f ≡ ok r
      → (a : A) × (rest : List ℕ) × (x ≡ ok (a, rest)) × (f a rest ≡ ok r)
  continue-eq-ok (ok (a, rest)) f h = (a, rest, refl, h)
  continue-eq-ok (err e) f h = cc

  -- The two reads behind a successful `do` block.
  pub bind-eq-ok :
      (m : Parser E A) (f : A → Parser E B) (buf : List ℕ) {r : B × List ℕ}
      → (m >>= f) buf ≡ ok r
      → (a : A) × (rest : List ℕ) × (m buf ≡ ok (a, rest)) × (f a rest ≡ ok r)
  unfolding ◌>>=◌
  bind-eq-ok m f buf h = continue-eq-ok (m buf) f h

module _ {E : Type 0} (eof : E) where
  pub read_array-append :
      (n : ℕ) (xs rest : List ℕ) → length xs ≡ n → read_array eof n (xs ++ rest) ≡ ok (xs, rest)
  unfolding read_array
  read_array-append n xs rest h =
      rw (← h)
        (ground (arith, length-append xs rest, take-append_left xs rest, drop-append_left xs rest))

  pub read_u8-cons : (b : ℕ) (rest : List ℕ) → read_u8 eof (b ∷ rest) ≡ ok (b, rest)
  unfolding read_u8 read_array ◌>>=◌ pure from_le_bytes
  read_u8-cons b rest = ground arith

  pub read_u32-append :
      (v : ℕ) (rest : List ℕ) → v < 2 ^ 32 → read_u32 eof (to_le_bytes 4 v ++ rest) ≡ ok (v, rest)
  read_u32-append v rest h =
      unfold read_u32 pure in
      step _ _ (read_array-append 4 _ rest (length-to_le_bytes 4 v))
        (ap (λ n. ok (n, rest)) (from_le_bytes-to_le_bytes 4 v h))

  pub read_u64-append :
      (v : ℕ) (rest : List ℕ) → v < 2 ^ 64 → read_u64 eof (to_le_bytes 8 v ++ rest) ≡ ok (v, rest)
  read_u64-append v rest h =
      unfold read_u64 pure in
      step _ _ (read_array-append 8 _ rest (length-to_le_bytes 8 v))
        (ap (λ n. ok (n, rest)) (from_le_bytes-to_le_bytes 8 v h))

  bounded_count_lem :
      (m n : ℕ) (rest : List ℕ) → n * m ≤ length rest → bounded_count eof m n rest ≡ ok (n, rest)
  unfolding bounded_count
  bounded_count_lem m n rest fits = grind arith

  pub read_count-append :
      (m n : ℕ) (rest : List ℕ)
      → n < 2 ^ 64
      → n * m ≤ length rest
      → read_count eof m (to_le_bytes 8 n ++ rest) ≡ ok (n, rest)
  read_count-append m n rest h fits =
      unfold read_count in step _ _ (read_u64-append n rest h) (bounded_count_lem m n rest fits)

module _ {E A : Type 0} (item : Parser E A) (encode : A → List ℕ) (P : A → Type 0) where
  -- A loop of reads consumes what a loop of writes has written.
  pub read_many-append :
      ((x : A) → P x → (rest : List ℕ) → item (encode x ++ rest) ≡ ok (x, rest))
      → (xs : List A) → All P xs
      → (rest : List ℕ) → read_many (length xs) item (flat_map encode xs ++ rest) ≡ ok (xs, rest)
  unfolding read_many pure
  read_many-append h [] a rest = refl
  read_many-append h (x ∷ xs) (p, a) rest =
      rw append_assoc (
        step _ _ (h x p (flat_map encode xs ++ rest))
          (step _ _ (read_many-append h xs a rest) refl))

module _ {E A : Type 0} where
  pub length-read_many :
      (n : ℕ) (item : Parser E A) (buf : List ℕ) {xs : List A} {rest : List ℕ}
      → read_many n item buf ≡ ok (xs, rest)
      → length xs ≡ n
  unfolding read_many pure
  length-read_many zero item buf h = ground arith
  length-read_many (suc n) item buf h =
      let (x, b1, _, h1) = bind-eq-ok item _ buf h in
      let (ys, b2, h2, h3) = bind-eq-ok (read_many n item) _ b1 h1 in
      ground (arith, length-read_many n item b1 h2)
