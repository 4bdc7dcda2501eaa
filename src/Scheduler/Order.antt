-- ===== src/Scheduler/Order.antt =====
-- internal/router/scheduler/fifo.go: the order of the queue. Higher priorities stand first, and
-- requests of one priority in the order of their arrival.
pub mod Drain
pub mod Handlers
pub mod Steps
use fork_llama_swap.Base.{
  ℕ, ◌+◌, ◌≤◌, ◌≡◌, refl, ap, ◌⊎◌, inl, inr, String, Bool, true, false, Bool-cases, if_keeps,
  if◌then◌else◌, leb, List, [], ◌∷◌, ◌++◌, Option, some, none, All, All-mono, Whenever,
  Whenever-bind, ◌>>=◌, arith,
}
use fork_llama_swap.Base.Int.{ℤ, ◌≤ℤ◌, ltb_ℤ, pos_part, neg_part}
use fork_llama_swap.Base.Sub.{Sub, keep, drop, All-Sub}
use fork_llama_swap.Scheduler.Model.{HandlerReq, World, Fifo, Error, release, call}
use fork_llama_swap.Scheduler.Grant.{grant_handler, refuse, insert_by_priority}

module _ (priority : String → ℤ) where
  abbrev pub NotAbove : HandlerReq → HandlerReq → Type 0
  NotAbove q r = priority r.model ≤ℤ priority q.model

  -- No request stands behind one of a lower priority.
  abbrev pub IsSorted : List HandlerReq → Type 0
  IsSorted [] = Unit
  IsSorted (q ∷ qs) = All (NotAbove q) qs × IsSorted qs

  pub IsSorted-Sub : {xs ys : List HandlerReq} → Sub xs ys → IsSorted ys → IsSorted xs
  IsSorted-Sub Sub.done h = h
  IsSorted-Sub (keep x s) h = (All-Sub (NotAbove x) s h.0, IsSorted-Sub s h.1)
  IsSorted-Sub (drop y s) h = IsSorted-Sub s h.1

  insert-All :
      (P : HandlerReq → Type 0) (req : HandlerReq) (qs : List HandlerReq)
      → P req
      → All P qs
      → All P (insert_by_priority priority req qs)
  unfolding insert_by_priority
  insert-All P req [] p h = (p, tt)
  insert-All P req (q ∷ qs) p h =
      if_keeps (All P) (ltb_ℤ (priority q.model) (priority req.model)) _ _ (p, h)
        (h.0, insert-All P req qs p h.1)

  -- `a` in front of `b` is allowed: `b` is not of a higher priority.
  le_of_lt : (a b : ℤ) → ltb_ℤ a b ≡ true → a ≤ℤ b
  le_of_lt a b h = ground arith

  le_of_not-lt : (a b : ℤ) → ltb_ℤ a b ≡ false → b ≤ℤ a
  le_of_not-lt a b h = ground arith

  pub insert-IsSorted :
      (req : HandlerReq) (qs : List HandlerReq)
      → IsSorted qs
      → IsSorted (insert_by_priority priority req qs)
  unfolding insert_by_priority
  insert-IsSorted req [] h = (tt, tt)
  insert-IsSorted req (q ∷ qs) h =
      elim (Bool-cases (ltb_ℤ (priority q.model) (priority req.model))) [
        | inl t ↦ rw t (
          (
            le_of_lt (priority q.model) (priority req.model) t,
            All-mono (NotAbove q) (NotAbove req)
                (λ r k. omega (arith, le_of_lt (priority q.model) (priority req.model) t)) qs h.0,
          ),
          h,
        )
        | inr t ↦ rw t (
          insert-All (NotAbove q) req qs (le_of_not-lt (priority q.model) (priority req.model) t)
              h.0,
          insert-IsSorted req qs h.1,
        )
      ]

  -- The requests of the priority `p`.
  pub of_priority : ℤ → List HandlerReq → List HandlerReq
  of_priority p [] = []
  of_priority p (q ∷ qs) =
      if ltb_ℤ (priority q.model) p
      then of_priority p qs
      else if ltb_ℤ p (priority q.model)
      then of_priority p qs
      else q ∷ of_priority p qs

  none_below :
      (p : ℤ) (qs : List HandlerReq)
      → All (λ (r : HandlerReq). ltb_ℤ (priority r.model) p ≡ true) qs
      → of_priority p qs ≡ []
  unfolding of_priority
  none_below p [] h = refl
  none_below p (q ∷ qs) h = rw h.0 (none_below p qs h.1)

  abbrev Below : ℤ → HandlerReq → Type 0
  Below p r = ltb_ℤ (priority r.model) p ≡ true

  below_too : (a b c : ℤ) → a ≤ℤ b → ltb_ℤ b c ≡ true → ltb_ℤ a c ≡ true
  below_too a b c h k = ground arith

  -- A request that enters an ordered queue stands behind the queued requests of its own priority,
  -- which stay in their order.
  pub insert-own_priority :
      (req : HandlerReq) (qs : List HandlerReq)
      → IsSorted qs
      → of_priority (priority req.model) (insert_by_priority priority req qs)
        ≡ of_priority (priority req.model) qs ++ req ∷ []
  unfolding insert_by_priority of_priority
  insert-own_priority req [] h = ground arith
  insert-own_priority req (q ∷ qs) h =
      elim (Bool-cases (ltb_ℤ (priority q.model) (priority req.model))) [
        | inl t ↦
            let e : of_priority (priority req.model) qs ≡ [] = none_below (priority req.model) qs (
              All-mono (NotAbove q) (Below (priority req.model))
                (λ r k. below_too (priority r.model) (priority q.model) (priority req.model) k t) qs
                h.0) in
            rw t (rw t (ground (arith, e)))
        | inr t ↦ rw t (elim (Bool-cases (ltb_ℤ (priority req.model) (priority q.model))) [
          | inl u ↦ rw (t, u) (insert-own_priority req qs h.1)
          | inr u ↦ rw (t, u) (ap (◌∷◌ q) (insert-own_priority req qs h.1))
        ])
      ]

  abbrev pub Differs : ℤ → ℤ → Type 0
  Differs p p' = (ltb_ℤ p p' ≡ true) ⊎ (ltb_ℤ p' p ≡ true)

  -- And the requests of any other priority are left as they were.
  pub insert-other_priority :
      (p : ℤ) (req : HandlerReq) (qs : List HandlerReq)
      → Differs p (priority req.model)
      → of_priority p (insert_by_priority priority req qs) ≡ of_priority p qs
  unfolding insert_by_priority of_priority
  insert-other_priority p req [] h = ground arith
  insert-other_priority p req (q ∷ qs) h = ground (arith, insert-other_priority p req qs h)
