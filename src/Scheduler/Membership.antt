-- ===== src/Scheduler/Membership.antt =====
-- internal/router/scheduler/fifo.go: containsString decides whether a name is in a list, and sorting keeps
-- what is in one.
use Prim.Native.Nat.{Ordering}
use Prim.Native.String.{compare}
use fork_llama_swap.Base.{◌≡◌, ◌↔◌, String, true, List, [], ◌∷◌, names, Occurs, arith}
use fork_llama_swap.Scheduler.Collision.{contains_string, insert_sorted, sort_strings}

pub contains_string-Occurs :
    (xs : List String) (a : String) → (contains_string xs a ≡ true) ↔ Occurs a xs
unfolding contains_string
contains_string-Occurs [] a = (λ h. absurd (ground arith), λ h. absurd h)
contains_string-Occurs (x ∷ xs) a = ground (arith, contains_string-Occurs xs a, names x a)

-- A text occurs in a sorted list exactly if it occurs in the list.
pub insert_sorted-Occurs :
    (s : String) (xs : List String) (a : String) → Occurs a (insert_sorted s xs) ↔ Occurs a (s ∷ xs)
unfolding insert_sorted
insert_sorted-Occurs s [] a = (λ h. h, λ h. h)
insert_sorted-Occurs s (x ∷ xs) a =
    ordered (compare s x) (s ∷ x ∷ xs) (x ∷ insert_sorted s xs) (λ h. h, λ h. h)
      (ground (arith, insert_sorted-Occurs s xs a))
  where
    ordered :
        (o : Ordering) (k l : List String)
        → Occurs a k ↔ Occurs a (s ∷ x ∷ xs)
        → Occurs a l ↔ Occurs a (s ∷ x ∷ xs)
        → Occurs a (elim o [ Ordering.gt ↦ l | _ ↦ k ]) ↔ Occurs a (s ∷ x ∷ xs)
    ordered Ordering.lt k l h j = h
    ordered Ordering.eq k l h j = h
    ordered Ordering.gt k l h j = j

pub sort_strings-Occurs : (xs : List String) (a : String) → Occurs a (sort_strings xs) ↔ Occurs a xs
unfolding sort_strings
sort_strings-Occurs [] a = (λ h. h, λ h. h)
sort_strings-Occurs (s ∷ xs) a =
    ground (arith, insert_sorted-Occurs s (sort_strings xs) a, sort_strings-Occurs xs a)
