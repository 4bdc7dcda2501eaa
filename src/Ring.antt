-- ===== src/Ring.antt =====
-- internal/ring/buffer.go: a ring buffer, over the entries of any type. A slot that was never written has
-- the zero value `zero_value` of the type.
pub mod Last
use fork_llama_swap.Base.{ℕ, zero, suc, ◌+◌, ◌%◌, Bool, ltb, ◌==◌, if◌then◌else◌, List, [], ◌∷◌}

-- Buffer: the slots of buf by their indexes, of which there are `cap`.
pub record Buffer (A : Type 0) : Type 0 where
  pub buf : ℕ → A
  pub cap : ℕ
  pub head : ℕ
  pub size : ℕ

module _ {A : Type 0} where
  abbrev pub write : (ℕ → A) → ℕ → A → ℕ → A
  write buf i v j = if j == i then v else buf j

  -- NewBuffer.
  abbrev pub new_buffer : A → ℕ → Buffer A
  new_buffer zero_value capacity = record {
    buf = λ i. zero_value;
    cap = if ltb capacity 1 then 1 else capacity;
    head = 0;
    size = 0;
  }

  -- Push.
  unfoldable pub push : Buffer A → A → Buffer A
  push r v =
      if ltb r.size r.cap
      then record r { buf = write r.buf ((r.head + r.size) % r.cap) v; size = r.size + 1 }
      else record r { buf = write r.buf r.head v; head = (r.head + 1) % r.cap }

  -- The loop of Slice, over `n` entries from the `i`-th on.
  unfoldable pub slice_from : Buffer A → ℕ → ℕ → List A
  slice_from r i zero = []
  slice_from r i (suc n) = r.buf ((r.head + i) % r.cap) ∷ slice_from r (i + 1) n

  -- Slice. No entries are nil, which reads as the empty list.
  unfoldable pub slice : Buffer A → List A
  unfolding slice_from
  slice r = slice_from r 0 r.size
