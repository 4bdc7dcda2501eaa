-- ===== src/Tests/Buffers.antt =====
-- The theorems on internal/cache/cache.go and internal/ring/buffer.go, at small contents.
use fork_llama_swap.Base.{ℕ, ◌≡◌, refl, ltb, if◌then◌else◌, [], ◌∷◌, ◌++◌, none, arith}
use fork_llama_swap.ByteCache.{Cache, new, add, get, forget, evict_oldest, remove_order}
use fork_llama_swap.ByteCache.Bounds.{add-IsWellFormed, DropsOldest, add_stores}
use fork_llama_swap.ByteCache.Books
use fork_llama_swap.Ring.{Buffer, new_buffer, push, slice_from, slice}
use fork_llama_swap.Ring.Last.{drop_first, push_keeps_last, push-IsWellFormed}
use fork_llama_swap.Ring.Last

abbrev two_bytes : Cache
two_bytes = new 2

new-IsWellFormed : Books.IsWellFormed two_bytes
new-IsWellFormed = record {
  distinct = tt;
  known = λ k. (λ o. absurd o, λ h. absurd (ground arith));
  sized = refl;
  bounded = omega arith;
}

abbrev one_entry : Cache
one_entry = (add two_bytes 7 (1 ∷ 1 ∷ [])).1

-- The older entry goes when the second comes.
older_goes : (add one_entry 8 (5 ∷ [])).1.order ≡ 8 ∷ []
unfolding add forget evict_oldest remove_order
older_goes = refl

add-IsWellFormed_example : Books.IsWellFormed (add one_entry 8 (5 ∷ [])).1
add-IsWellFormed_example =
    add-IsWellFormed one_entry 8 (5 ∷ [])
      (add-IsWellFormed two_bytes 7 (1 ∷ 1 ∷ []) new-IsWellFormed)

add_stores_example :
    ((add one_entry 8 (5 ∷ [])).0 ≡ none)
    × (get (add one_entry 8 (5 ∷ [])).1 8 ≡ (none, 5 ∷ []))
    × DropsOldest one_entry 8 7 (add one_entry 8 (5 ∷ [])).1
unfolding add evict_oldest forget remove_order
add_stores_example =
    add_stores one_entry 8 (5 ∷ []) 7 (add-IsWellFormed two_bytes 7 (1 ∷ 1 ∷ []) new-IsWellFormed)
      (omega arith) (λ e. absurd (omega arith))

abbrev two_slots : Buffer ℕ
two_slots = new_buffer 0 2

new_buffer-IsWellFormed : Last.IsWellFormed two_slots
new_buffer-IsWellFormed = record {
  room = omega arith;
  head_within = omega arith;
  size_within = omega arith;
}

last_two : slice (push (push (push two_slots 1) 2) 3) ≡ 2 ∷ 3 ∷ []
unfolding push slice slice_from
last_two = refl

push_keeps_last_example :
    (slice (push two_slots 4) ≡ (
      if ltb two_slots.size two_slots.cap
      then slice two_slots ++ 4 ∷ []
      else drop_first (slice two_slots) ++ 4 ∷ []))
    × Last.IsWellFormed (push two_slots 4)
push_keeps_last_example = push_keeps_last two_slots 4 new_buffer-IsWellFormed
