-- ===== src/Scheduler/Sorting.antt =====
-- sort.Strings and slices.Compact, of internal/router: what is sorted is in order, and nothing stands in it
-- more often than before.
use Prim.Native.Nat.{Ordering}
use Prim.Native.String.{compare}
use fork_llama_swap.Base.{
  ◌≡◌, sym, subst, inl, inr, String, List, [], ◌∷◌, All, All-mono, Occurs, Distinct,
}
use fork_llama_swap.Base.TextOrder.{AtMost, AtMost-trans, AtMost-antisym, Told, compare-Told}
use fork_llama_swap.Scheduler.Collision.{insert_sorted, sort_strings}
use fork_llama_swap.Scheduler.Membership.{insert_sorted-Occurs, sort_strings-Occurs}

-- Each text is at most those behind it.
abbrev pub IsAscending : List String → Type 0
IsAscending [] = Unit
IsAscending (x ∷ xs) = All (AtMost x) xs × IsAscending xs

-- One of two lists, by the comparison of a text with the first of the list.
abbrev choice : Ordering → List String → List String → List String
choice o k l = elim o [ Ordering.gt ↦ l | _ ↦ k ]

insert_sorted-All :
    (P : String → Type 0) (s : String) (xs : List String)
    → P s
    → All P xs
    → All P (insert_sorted s xs)
unfolding insert_sorted
insert_sorted-All P s [] p h = (p, tt)
insert_sorted-All P s (x ∷ xs) p h =
    ordered (compare s x) (p, h) (h.0, insert_sorted-All P s xs p h.1)
  where
    ordered :
        (o : Ordering)
        → All P (s ∷ x ∷ xs)
        → All P (x ∷ insert_sorted s xs)
        → All P (choice o (s ∷ x ∷ xs) (x ∷ insert_sorted s xs))
    ordered Ordering.lt k l = k
    ordered Ordering.eq k l = k
    ordered Ordering.gt k l = l

insert_sorted-IsAscending :
    (s : String) (xs : List String) → IsAscending xs → IsAscending (insert_sorted s xs)
unfolding insert_sorted
insert_sorted-IsAscending s [] h = (tt, tt)
insert_sorted-IsAscending s (x ∷ xs) h =
    ordered (compare s x) (compare-Told s x)
      (λ t. ((t, All-mono (AtMost x) (AtMost s) (λ a k. AtMost-trans s x a t k) xs h.0), h))
      (λ t. (insert_sorted-All (AtMost x) s xs t h.0, insert_sorted-IsAscending s xs h.1))
  where
    ordered :
        (o : Ordering)
        → Told o s x
        → (AtMost s x → IsAscending (s ∷ x ∷ xs))
        → (AtMost x s → IsAscending (x ∷ insert_sorted s xs))
        → IsAscending (choice o (s ∷ x ∷ xs) (x ∷ insert_sorted s xs))
    ordered Ordering.lt t k l = k t
    ordered Ordering.eq t k l = k t
    ordered Ordering.gt t k l = l t

pub sort_strings-IsAscending : (xs : List String) → IsAscending (sort_strings xs)
unfolding sort_strings
sort_strings-IsAscending [] = tt
sort_strings-IsAscending (s ∷ xs) =
    insert_sorted-IsAscending s (sort_strings xs) (sort_strings-IsAscending xs)

insert_sorted-Distinct :
    (s : String) (xs : List String)
    → (Occurs s xs → ⊥)
    → Distinct xs
    → Distinct (insert_sorted s xs)
unfolding insert_sorted
insert_sorted-Distinct s [] n d = (λ o. o, tt)
insert_sorted-Distinct s (x ∷ xs) n d =
    ordered (compare s x) (n, d)
      (
        λ o. elim ((insert_sorted-Occurs s xs x).0 o) [ inl e ↦ n (inl (sym e)) | inr h ↦ d.0 h ],
        insert_sorted-Distinct s xs (λ o. n (inr o)) d.1,
      )
  where
    ordered :
        (o : Ordering)
        → Distinct (s ∷ x ∷ xs)
        → Distinct (x ∷ insert_sorted s xs)
        → Distinct (choice o (s ∷ x ∷ xs) (x ∷ insert_sorted s xs))
    ordered Ordering.lt k l = k
    ordered Ordering.eq k l = k
    ordered Ordering.gt k l = l

pub sort_strings-Distinct : (xs : List String) → Distinct xs → Distinct (sort_strings xs)
unfolding sort_strings
sort_strings-Distinct [] d = tt
sort_strings-Distinct (s ∷ xs) d =
    insert_sorted-Distinct s (sort_strings xs) (λ o. d.0 ((sort_strings-Occurs xs s).0 o))
      (sort_strings-Distinct xs d.1)

-- If a text stands again in what is sorted, then right behind itself.
pub again_next :
    (x y : String) (xs : List String) → IsAscending (x ∷ y ∷ xs) → Occurs x (y ∷ xs) → x ≡ y
again_next x y xs h (inl e) = e
again_next x y xs h (inr o) = AtMost-antisym x y h.0.0 (at (AtMost y) xs h.1.0 o)
  where
    at : (P : String → Type 0) (ys : List String) → All P ys → Occurs x ys → P x
    at P [] k i = absurd i
    at P (z ∷ ys) k (inl e) = subst P (sym e) k.0
    at P (z ∷ ys) k (inr i) = at P ys k.1 i
