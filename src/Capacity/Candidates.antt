-- ===== src/Capacity/Candidates.antt =====
-- internal/router/capacity.go: the candidates are the running models but the target.
use fork_llama_swap.Base.{
  ◌≢◌, ◌↔◌, String, ◌=ₛ◌, names, if_cases, List, [], ◌∷◌, Occurs, Distinct, if_keeps, arith,
}
use fork_llama_swap.Scheduler.Collision.{sort_strings}
use fork_llama_swap.Scheduler.Sorting.{IsAscending, again_next, sort_strings-IsAscending}
use fork_llama_swap.Scheduler.Membership.{sort_strings-Occurs}
use fork_llama_swap.Capacity.{compact, except, candidates_for}

compact-Occurs : (xs : List String) (a : String) → Occurs a (compact xs) ↔ Occurs a xs
unfolding compact
compact-Occurs [] a = (λ h. h, λ h. h)
compact-Occurs (x ∷ []) a = (λ h. h, λ h. h)
compact-Occurs (x ∷ y ∷ xs) a =
    if_cases (λ l. Occurs a l ↔ Occurs a (x ∷ y ∷ xs)) (x =ₛ y) _ _
      (λ e. ground (arith, compact-Occurs (y ∷ xs) a, names x y))
      (λ e. ground (arith, compact-Occurs (y ∷ xs) a))

except-Occurs :
    (target : String) (xs : List String) (a : String)
    → Occurs a (except target xs) ↔ Occurs a xs × (a ≢ target)
unfolding except
except-Occurs target [] a = (λ h. absurd h, λ h. absurd h.0)
except-Occurs target (x ∷ xs) a =
    if_cases (λ l. Occurs a l ↔ Occurs a (x ∷ xs) × (a ≢ target)) (x =ₛ target) _ _
      (λ e. ground (arith, except-Occurs target xs a, names x target))
      (λ e. ground (arith, except-Occurs target xs a, names x target))

-- The candidates are exactly the running models that are not the target.
pub candidates_for-Occurs :
    (target : String) (running : List String) (a : String)
    → Occurs a (candidates_for target running) ↔ Occurs a running × (a ≢ target)
unfolding candidates_for
candidates_for-Occurs target running a = ground (
  arith,
  except-Occurs target (compact (sort_strings running)) a,
  compact-Occurs (sort_strings running) a,
  sort_strings-Occurs running a,
)

compact-Distinct : (xs : List String) → IsAscending xs → Distinct (compact xs)
unfolding compact
compact-Distinct [] h = tt
compact-Distinct (x ∷ []) h = (λ o. o, tt)
compact-Distinct (x ∷ y ∷ xs) h =
    if_cases Distinct (x =ₛ y) _ _ (λ e. compact-Distinct (y ∷ xs) h.1)
      (λ e. (
        λ o. ground (arith, e, names x y, again_next x y xs h ((compact-Occurs (y ∷ xs) x).0 o)),
        compact-Distinct (y ∷ xs) h.1,
      ))

except-Distinct : (target : String) (xs : List String) → Distinct xs → Distinct (except target xs)
unfolding except
except-Distinct target [] d = tt
except-Distinct target (x ∷ xs) d =
    if_keeps Distinct (x =ₛ target) _ _ (except-Distinct target xs d.1)
      (λ o. d.0 ((except-Occurs target xs x).0 o).0, except-Distinct target xs d.1)

-- No candidate stands twice.
pub candidates_for-Distinct :
    (target : String) (running : List String) → Distinct (candidates_for target running)
unfolding candidates_for
candidates_for-Distinct target running =
    except-Distinct target (compact (sort_strings running))
      (compact-Distinct (sort_strings running) (sort_strings-IsAscending running))
