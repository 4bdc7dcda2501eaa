-- ===== src/Group.antt =====
-- internal/router/group.go: the planner that evicts by groups. A model that is in no group, and a group
-- that is not configured, read as the zero values of the maps.
use fork_llama_swap.Base.{
  ◌≡◌, ◌≢◌, sym, subst, ◌↔◌, ◌⊎◌, inl, inr, String, Bool, true, false, not, ◌&&◌, ◌=ₛ◌, names,
  if_cases, if_keeps, if◌then◌else◌, List, [], ◌∷◌, ◌++◌, Occurs, Occurs-snoc, Distinct,
  Distinct-snoc, arith,
}
use fork_llama_swap.Scheduler.Collision.{contains_string}
use fork_llama_swap.Scheduler.Membership.{contains_string-Occurs}

-- What the planner reads of config.GroupConfig.
pub record GroupConfig : Type 0 where
  pub swap : Bool
  pub exclusive : Bool
  pub persistent : Bool

pub record GroupSwapper : Type 0 where
  pub groups : String → GroupConfig
  pub model_to_group : String → String

-- The closure `consider`. The set `seen` has the models of `result`, so `result` stands for both.
unfoldable pub consider : GroupSwapper → String → List String → String → List String
consider s target result id =
    let tg = s.model_to_group target in
    let og = s.model_to_group id in
    if id =ₛ target
    then result
    else if contains_string result id
    then result
    else if (og =ₛ tg) && (s.groups tg).swap
    then result ++ id ∷ []
    else if not (og =ₛ tg) && (s.groups tg).exclusive
    then if (s.groups og).persistent then result else result ++ id ∷ []
    else result

unfoldable pub consider_all : GroupSwapper → String → List String → List String → List String
consider_all s target result [] = result
consider_all s target result (id ∷ ids) = consider_all s target (consider s target result id) ids

-- EvictionFor.
unfoldable pub eviction_for : GroupSwapper → String → List String → List String
unfolding consider consider_all
eviction_for s target running = consider_all s target [] running

-- The model makes way for the target: it is another model of its group, which swaps, or it is in
-- another group that is not persistent while the group of the target is exclusive.
abbrev pub MakesWay : GroupSwapper → String → String → Type 0
MakesWay s target id =
    (id ≢ target)
    × (((s.model_to_group id ≡ s.model_to_group target)
          × ((s.groups (s.model_to_group target)).swap ≡ true))
        ⊎ ((s.model_to_group id ≢ s.model_to_group target)
            × ((s.groups (s.model_to_group target)).exclusive ≡ true)
            × ((s.groups (s.model_to_group id)).persistent ≡ false)))

consider-Occurs :
    (s : GroupSwapper) (target : String) (result : List String) (id a : String)
    → Occurs a (consider s target result id) ↔ (Occurs a result ⊎ ((a ≡ id) × MakesWay s target id))
unfolding consider
consider-Occurs s target result id a = ground (
  arith,
  names id target,
  names (s.model_to_group id) (s.model_to_group target),
  contains_string-Occurs result id,
  Occurs-snoc result id a,
)

consider_all-Occurs :
    (s : GroupSwapper) (target : String) (result ids : List String) (a : String)
    → Occurs a (consider_all s target result ids)
      ↔ (Occurs a result ⊎ (Occurs a ids × MakesWay s target a))
unfolding consider_all
consider_all-Occurs s target result [] a = ground arith
consider_all-Occurs s target result (id ∷ ids) a = (
  λ h. forward ((consider_all-Occurs s target (consider s target result id) ids a).0 h),
  λ h. (consider_all-Occurs s target (consider s target result id) ids a).1 (backward h),
)
  where
    forward :
        Occurs a (consider s target result id) ⊎ (Occurs a ids × MakesWay s target a)
        → Occurs a result ⊎ (((a ≡ id) ⊎ Occurs a ids) × MakesWay s target a)
    forward (inr h) = inr (inr h.0, h.1)
    forward (inl h) = elim ((consider-Occurs s target result id a).0 h) [
      | inl k ↦ inl k
      | inr k ↦ inr (inl k.0, subst (MakesWay s target) (sym k.0) k.1)
    ]

    backward :
        Occurs a result ⊎ (((a ≡ id) ⊎ Occurs a ids) × MakesWay s target a)
        → Occurs a (consider s target result id) ⊎ (Occurs a ids × MakesWay s target a)
    backward (inl h) = inl ((consider-Occurs s target result id a).1 (inl h))
    backward (inr (inr h, m)) = inr (h, m)
    backward (inr (inl e, m)) =
        inl ((consider-Occurs s target result id a).1 (inr (e, subst (MakesWay s target) e m)))

-- The evicted models are exactly the running models that make way for the target by the groups.
pub eviction_for-Occurs :
    (s : GroupSwapper) (target : String) (running : List String) (a : String)
    → Occurs a (eviction_for s target running) ↔ Occurs a running × MakesWay s target a
unfolding eviction_for
eviction_for-Occurs s target running a = (
  λ h. elim ((consider_all-Occurs s target [] running a).0 h) [ inl k ↦ absurd k | inr k ↦ k ],
  λ h. (consider_all-Occurs s target [] running a).1 (inr h),
)

consider-Distinct :
    (s : GroupSwapper) (target : String) (result : List String) (id : String)
    → Distinct result
    → Distinct (consider s target result id)
unfolding consider
consider-Distinct s target result id d = if_keeps Distinct (id =ₛ target) _ _ d (
    if_cases Distinct (contains_string result id) _ _ (λ e. d)
      (λ e.
        if_keeps Distinct
          ((s.model_to_group id =ₛ s.model_to_group target)
            && (s.groups (s.model_to_group target)).swap)
          _ _ (added e)
          (if_keeps Distinct
            (not (s.model_to_group id =ₛ s.model_to_group target)
              && (s.groups (s.model_to_group target)).exclusive)
            _ _ (if_keeps Distinct (s.groups (s.model_to_group id)).persistent _ _ d (added e)) d)))
  where
    added : contains_string result id ≡ false → Distinct (result ++ id ∷ [])
    added e = Distinct-snoc result id (λ o. ground (arith, contains_string-Occurs result id)) d

consider_all-Distinct :
    (s : GroupSwapper) (target : String) (result ids : List String)
    → Distinct result
    → Distinct (consider_all s target result ids)
unfolding consider_all
consider_all-Distinct s target result [] d = d
consider_all-Distinct s target result (id ∷ ids) d =
    consider_all-Distinct s target (consider s target result id) ids
      (consider-Distinct s target result id d)

-- No model is evicted twice.
pub eviction_for-Distinct :
    (s : GroupSwapper) (target : String) (running : List String)
    → Distinct (eviction_for s target running)
unfolding eviction_for
eviction_for-Distinct s target running = consider_all-Distinct s target [] running tt

-- The evicted models are exactly the running models that make way for the target by the groups, each
-- of them once: they differ from it, and are in its group, which swaps, or in another group that is not
-- persistent while the group of the target is exclusive.
pub eviction_for-Selects :
    (s : GroupSwapper) (target : String) (running : List String) (a : String)
    → (Occurs a (eviction_for s target running) ↔ Occurs a running × MakesWay s target a)
      × Distinct (eviction_for s target running)
eviction_for-Selects s target running a =
    (eviction_for-Occurs s target running a, eviction_for-Distinct s target running)
