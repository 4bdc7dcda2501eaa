-- ===== src/Matrix/Compile/Orphans.antt =====
-- internal/matrix/program.go: the root of the orphans, from buildModelSet, stands for each orphan alone.
use fork_llama_swap.Base.{String, ◌≡◌, ◌↔◌, inl, inr, refl, ap, ◌∙◌, subst, List, [], ◌∷◌, Occurs}
use fork_llama_swap.Scheduler.Collision.{sort_strings}
use fork_llama_swap.Scheduler.Membership.{sort_strings-Occurs}
use fork_llama_swap.Matrix.{leaf, any_of, child}
use fork_llama_swap.Matrix.Combos.{IsCombo, IsAnyCombo}
use fork_llama_swap.Matrix.Compile.{
  simplify_empty_refs, simplify_all, lone, build_model_set, leaves_of,
}
use fork_llama_swap.Matrix.Compile.Simplify.{IsEmpty}

-- Some model, and it alone.
abbrev pub IsOneOf : List String → List String → Type 0
IsOneOf ms xs = (m : String) × Occurs m ms × (xs ≡ m ∷ [])

leaves_of-IsAnyCombo : (ms xs : List String) → IsAnyCombo (leaves_of ms) xs ↔ IsOneOf ms xs
unfolding IsCombo
leaves_of-IsAnyCombo [] xs = (λ h. absurd h, λ h. h.1)
leaves_of-IsAnyCombo (m ∷ ms) xs = (
  λ h. elim h [
    | inl e ↦ (m, inl refl, e)
    | inr k ↦ let r = (leaves_of-IsAnyCombo ms xs).0 k in (r.0, inr r.1, r.2)
  ],
  λ h. elim h.1 [
    | inl e ↦ inl (h.2 ∙ ap (λ k. k ∷ []) e)
    | inr o ↦ inr ((leaves_of-IsAnyCombo ms xs).1 (h.0, o, h.2))
  ],
)

IsOneOf-sort : (ms xs : List String) → IsOneOf (sort_strings ms) xs ↔ IsOneOf ms xs
IsOneOf-sort ms xs = (
  λ h. (h.0, (sort_strings-Occurs ms h.0).0 h.1, h.2),
  λ h. (h.0, (sort_strings-Occurs ms h.0).1 h.1, h.2),
)

pub build_model_set-IsCombo :
    (ms xs : List String) → IsCombo (build_model_set ms) xs ↔ IsOneOf ms xs
unfolding build_model_set IsCombo
build_model_set-IsCombo [] xs = (λ h. absurd h, λ h. h.1)
build_model_set-IsCombo (m ∷ ms) xs = (
  λ h. (IsOneOf-sort (m ∷ ms) xs).0 ((leaves_of-IsAnyCombo (sort_strings (m ∷ ms)) xs).0 h),
  λ h. (leaves_of-IsAnyCombo (sort_strings (m ∷ ms)) xs).1 ((IsOneOf-sort (m ∷ ms) xs).1 h),
)

simplify_all-leaves_of : (ms : List String) → simplify_all (leaves_of ms) ≡ leaves_of ms
unfolding simplify_empty_refs
simplify_all-leaves_of [] = refl
simplify_all-leaves_of (m ∷ ms) = ap (child (leaf m)) (simplify_all-leaves_of ms)

lone_leaves :
    (ms xs : List String)
    → (IsCombo (lone any_of (leaves_of ms)) xs ↔ IsAnyCombo (leaves_of ms) xs)
      × (IsEmpty (lone any_of (leaves_of ms)) ↔ (ms ≡ []))
unfolding IsCombo
lone_leaves [] xs = ((λ h. h, λ h. h), (λ h. refl, λ h. tt))
lone_leaves (m ∷ []) xs =
    ((λ h. inl h, λ h. elim h [ inl k ↦ k | inr k ↦ absurd k ]), (λ h. absurd h, λ h. absurd (cc)))
lone_leaves (m ∷ n ∷ ms) xs = ((λ h. h, λ h. h), (λ h. absurd h, λ h. absurd (cc)))

sort_strings-none : (ms : List String) → (sort_strings ms ≡ []) → ms ≡ []
sort_strings-none [] e = refl
sort_strings-none (m ∷ ms) e =
    absurd (subst (Occurs m) e ((sort_strings-Occurs (m ∷ ms) m).1 (inl refl)))

-- The root of the orphans, simplified.
pub simple_orphans :
    (ms xs : List String)
    → (IsCombo (simplify_empty_refs (build_model_set ms)) xs ↔ IsOneOf ms xs)
      × (IsEmpty (simplify_empty_refs (build_model_set ms)) ↔ (ms ≡ []))
unfolding build_model_set simplify_empty_refs IsCombo
simple_orphans [] xs = ((λ h. absurd h, λ h. h.1), (λ h. refl, λ h. tt))
simple_orphans (m ∷ ms) xs = rw (simplify_all-leaves_of (sort_strings (m ∷ ms))) (
  (
    λ h. (IsOneOf-sort (m ∷ ms) xs).0 (
        (leaves_of-IsAnyCombo (sort_strings (m ∷ ms)) xs).0
          ((lone_leaves (sort_strings (m ∷ ms)) xs).0.0 h)),
    λ h.
        (lone_leaves (sort_strings (m ∷ ms)) xs).0.1
          ((leaves_of-IsAnyCombo (sort_strings (m ∷ ms)) xs).1 ((IsOneOf-sort (m ∷ ms) xs).1 h)),
  ),
  (
    λ h. sort_strings-none (m ∷ ms) ((lone_leaves (sort_strings (m ∷ ms)) xs).1.0 h),
    λ h. absurd (cc),
  ),
)
