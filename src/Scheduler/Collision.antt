-- ===== src/Scheduler/Collision.antt =====
-- internal/router/scheduler/fifo.go: the tests of whether a new swap may run beside the others, and
-- the set of live models that the planner is given.
use Prim.Native.Nat.{Ordering}
use Prim.Native.String.{compare}
use fork_llama_swap.Base.{
  ℕ, String, Bool, true, false, ◌||◌, List, [], ◌∷◌, ◌++◌, ltb, ◌=ₛ◌, if◌then◌else◌,
}
use fork_llama_swap.Scheduler.Model.{ActiveSwap}

unfoldable pub contains_string : List String → String → Bool
contains_string [] s = false
contains_string (x ∷ xs) s = if x =ₛ s then true else contains_string xs s

unfoldable pub slices_overlap : List String → List String → Bool
slices_overlap [] ys = false
slices_overlap (x ∷ xs) ys = if contains_string ys x then true else slices_overlap xs ys

-- The body of the loop of collidesWith, for one active swap.
unfoldable pub collides : String → List String → ActiveSwap → Bool
collides target evict sw =
    if sw.model_id =ₛ target
    then false
    else contains_string evict sw.model_id
      || (contains_string sw.evict target || slices_overlap evict sw.evict)

unfoldable pub collides_with : String → List String → List ActiveSwap → Bool
collides_with target evict [] = false
collides_with target evict (sw ∷ active) =
    if collides target evict sw then true else collides_with target evict active

unfoldable pub conflicts_with_in_flight : List String → (String → ℕ) → Bool
conflicts_with_in_flight [] in_flight = false
conflicts_with_in_flight (m ∷ evict) in_flight =
    if ltb 0 (in_flight m) then true else conflicts_with_in_flight evict in_flight

unfoldable pub active_targets : List ActiveSwap → String → List String
active_targets [] exclude = []
active_targets (sw ∷ active) exclude =
    if sw.model_id =ₛ exclude
    then active_targets active exclude
    else sw.model_id ∷ active_targets active exclude

-- The closure `add`, over a list: what is in `out` already is skipped.
unfoldable pub add_all : List String → List String → List String
add_all out [] = out
add_all out (id ∷ ids) = add_all (if contains_string out id then out else out ++ id ∷ []) ids

unfoldable pub insert_sorted : String → List String → List String
insert_sorted s [] = s ∷ []
insert_sorted s (x ∷ xs) = elim (compare s x) [
  | Ordering.gt ↦ x ∷ insert_sorted s xs
  | _ ↦ s ∷ x ∷ xs
]

-- sort.Strings: the order of texts is total, so the sorted list is unique.
unfoldable pub sort_strings : List String → List String
unfolding insert_sorted
sort_strings [] = []
sort_strings (s ∷ xs) = insert_sorted s (sort_strings xs)

unfoldable pub running_set : List String → List ActiveSwap → String → List String
unfolding add_all active_targets sort_strings
running_set running_models active exclude =
    sort_strings (add_all (add_all [] running_models) (active_targets active exclude))
