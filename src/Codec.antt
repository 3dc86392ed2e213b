-- ===== src/Codec.antt =====
-- The bounds-checked cursors of crates/kovanica-state/src/tx.rs (`Reader`) and of
-- crates/kovanica-state/src/utxo.rs (`CheckpointReader`). The cursor is the list of the bytes that
-- it has not consumed, `buf[pos..]`; the two cursors differ in their error type alone, so the error
-- of a short read is a parameter.
pub mod Laws
use kovanica_node.Common.{
  ℕ, zero, suc, ◌/◌, ◌&&◌, List, [], ◌∷◌, Result, ok, err, ltb, if◌then◌else◌, length, take, drop,
  from_le_bytes,
}

abbrev pub Parser : Type 0 → Type 0 → Type 0
Parser E A = List ℕ → Result E (A × List ℕ)

module _ {E A : Type 0} where
  unfoldable pub pure : A → Parser E A
  pure a buf = ok (a, buf)

  unfoldable pub fail : E → Parser E A
  fail e buf = err e

module _ {E A B : Type 0} where
  abbrev continue : Result E (A × List ℕ) → (A → Parser E B) → Result E (B × List ℕ)
  continue (ok (a, buf)) f = f a buf
  continue (err e) f = err e

  -- `let a = self.m()?; ..`
  infixl 5 ◌>>=◌
  unfoldable pub ◌>>=◌ : Parser E A → (A → Parser E B) → Parser E B
  ◌>>=◌ m f buf = continue (m buf) f

module _ {E : Type 0} (eof : E) where
  unfoldable pub read_array : ℕ → Parser E (List ℕ)
  read_array n buf = if ltb (length buf) n then err eof else ok (take n buf, drop n buf)

  unfoldable pub read_u8 : Parser E ℕ
  read_u8 buf = (read_array 1 >>= λ bs. pure (from_le_bytes bs)) buf

  unfoldable pub read_u32 : Parser E ℕ
  read_u32 buf = (read_array 4 >>= λ bs. pure (from_le_bytes bs)) buf

  unfoldable pub read_u64 : Parser E ℕ
  read_u64 buf = (read_array 8 >>= λ bs. pure (from_le_bytes bs)) buf

  -- The count is refused when `n` items of `min_element_bytes` each do not fit in what is left.
  unfoldable pub bounded_count : ℕ → ℕ → Parser E ℕ
  bounded_count min_element_bytes n buf =
      if ltb 0 min_element_bytes && ltb (length buf / min_element_bytes) n
      then err eof
      else ok (n, buf)

  unfoldable pub read_count : ℕ → Parser E ℕ
  read_count min_element_bytes buf = (read_u64 >>= bounded_count min_element_bytes) buf

-- `for _ in 0..n { items.push(self.item()?); }`
unfoldable pub read_many : {E A : Type 0} → ℕ → Parser E A → Parser E (List A)
read_many zero item = pure []
read_many (suc n) item = item >>= λ x. read_many n item >>= λ xs. pure (x ∷ xs)
