-- ===== src/Scheduler/Invariant/Loops.antt =====
-- internal/router/scheduler/fifo.go: the loops over waiters, and the removal of a swap, keep the
-- books.
use fork_llama_swap.Base.{
  ℕ, ◌+◌, ◌≡◌, refl, ap, sym, subst, ◌=ₛ◌, ◌∙◌, String, if_keeps, names, List, [], ◌∷◌, Option,
  some, All, All-mono, Occurs, Ensures, Ensures-bind, Ensures-mono, ◌>>=◌, inl, inr, arith,
}
use fork_llama_swap.Scheduler.Model.{HandlerReq, World, Fifo, Error, ActiveSwap, limit}
use fork_llama_swap.Scheduler.Decide.{find_active, delete_active}
use fork_llama_swap.Scheduler.Events.{refuse_all, serve_all}
use fork_llama_swap.Scheduler.Invariant.{
  Holds, HoldsAt, HoldsAt-congr, KeepsAt, Apart, NoClash, OwnWaiters, IsFor, Spares, hits, count,
  waiting,
}
use fork_llama_swap.Scheduler.Invariant.Grants.{OneLess, grant_handler-KeepsAt, refuse-KeepsAt}

-- The requests of a list are held besides `rest`.
abbrev pub besides : (String → ℕ) → List HandlerReq → String → ℕ
besides rest reqs j = rest j + count j reqs

module _ (rest : String → ℕ) (q : HandlerReq) (qs : List HandlerReq) where
  head_less : OneLess (besides rest (q ∷ qs)) (besides rest qs) q.model
  head_less j = omega arith

module _ (active : List ActiveSwap) where
  KeepsAt-trans :
      (held held' : String → ℕ) (s t u : Fifo)
      → KeepsAt active held s t
      → KeepsAt active held' t u
      → KeepsAt active held' s u
  KeepsAt-trans held held' s t u k h = (h.0, h.1 ∙ k.1, h.2 ∙ k.2)

  -- A loop that begins by a step which keeps the books, and goes on so.
  pub loop_KeepsAt :
      (held held' : String → ℕ) (s : Fifo) (m : Option Fifo) (f : Fifo → Option Fifo)
      → Ensures (KeepsAt active held s) m
      → ((t : Fifo) → KeepsAt active held s t → Ensures (KeepsAt active held' t) (f t))
      → Ensures (KeepsAt active held' s) (m >>= f)
  loop_KeepsAt held held' s m f h k =
      Ensures-bind (KeepsAt active held s) (KeepsAt active held' s) m f h (λ t a.
        Ensures-mono (KeepsAt active held' t) (KeepsAt active held' s) (f t)
          (λ u b. KeepsAt-trans held held' s t u a b) (k t a))

  all_left :
      (rest : String → ℕ) (s : Fifo) → HoldsAt active (besides rest []) s → KeepsAt active rest s s
  all_left rest s v = (HoldsAt-congr active _ rest s (λ j. omega arith) v, refl, refl)

  pub refuse_all-KeepsAt :
      (err : Error) (rest : String → ℕ) (s : Fifo) (reqs : List HandlerReq)
      → HoldsAt active (besides rest reqs) s
      → Ensures (KeepsAt active rest s) (refuse_all err s reqs)
  unfolding refuse_all
  refuse_all-KeepsAt err rest s [] v = all_left rest s v
  refuse_all-KeepsAt err rest s (q ∷ qs) v =
      loop_KeepsAt (besides rest qs) rest s _ _
        (refuse-KeepsAt _ _ s q (head_less rest q qs) active err v)
        (λ t k. refuse_all-KeepsAt err rest t qs k.0)

abbrev pub Untouched : String → List ActiveSwap → Type 0
Untouched m = All (λ (sw : ActiveSwap). ¬ Occurs m sw.evict)

pub serve_all-KeepsAt :
    (w : World) (m : String) (active : List ActiveSwap) (rest : String → ℕ) (s : Fifo)
    (reqs : List HandlerReq)
    → All (IsFor m) reqs
    → Untouched m active
    → HoldsAt active (besides rest reqs) s
    → Ensures (KeepsAt active rest s) (serve_all w m s reqs)
unfolding serve_all
serve_all-KeepsAt w m active rest s [] own free v = all_left active rest s v
serve_all-KeepsAt w m active rest s (q ∷ qs) own free v =
    loop_KeepsAt active (besides rest qs) rest s _ _
      (grant_handler-KeepsAt active _ _ s m
        (λ j. omega (arith, head_less rest q qs j, ap (λ x. hits x j) own.0)) w q v free)
      (λ t k. serve_all-KeepsAt w m active rest t qs own.1 free k.0)

pub find_active-All :
    (P : ActiveSwap → Type 0) (m : String) (active : List ActiveSwap) (sw : ActiveSwap)
    → find_active m active ≡ some sw
    → All P active
    → P sw × (sw.model_id ≡ m)
unfolding find_active
find_active-All P m [] sw h v = cc
find_active-All P m (a ∷ active) sw h v = elim (names a.model_id m) [
  | inl (t, e) ↦ (subst P (ground arith) v.0, ground arith)
  | inr (t, e) ↦ find_active-All P m active sw (ground arith) v.1
]

module _ (m : String) where
  pub delete_active-All :
      (P : ActiveSwap → Type 0) (active : List ActiveSwap)
      → All P active
      → All P (delete_active m active)
  unfolding delete_active
  delete_active-All P [] v = tt
  delete_active-All P (a ∷ active) v =
      if_keeps (All P) (a.model_id =ₛ m) _ _ v.1 (v.0, delete_active-All P active v.1)

  pub delete_active-Apart :
      (active : List ActiveSwap) → Apart active → Apart (delete_active m active)
  unfolding delete_active
  delete_active-Apart [] v = tt
  delete_active-Apart (a ∷ active) v =
      if_keeps Apart (a.model_id =ₛ m) _ _ v.1
        (delete_active-All (NoClash a) active v.0, delete_active-Apart active v.1)

  module _ (sw : ActiveSwap) where
    pub waiting-delete_active :
        (j : String) (active : List ActiveSwap)
        → find_active m active ≡ some sw
        → waiting j active ≡ waiting j (delete_active m active) + count j sw.waiters
    unfolding find_active delete_active
    waiting-delete_active j [] h = cc
    waiting-delete_active j (a ∷ active) h = elim (names a.model_id m) [
      | inl (t, e) ↦ rw t (ground arith)
      | inr (t, e) ↦ rw t (omega (arith, waiting-delete_active j active (ground arith)))
    ]

    -- No swap that is left stops the model whose swap is deleted.
    pub delete_active-Untouched :
        (active : List ActiveSwap)
        → find_active m active ≡ some sw
        → Apart active
        → Untouched m (delete_active m active)
    unfolding find_active delete_active
    delete_active-Untouched [] h v = tt
    delete_active-Untouched (a ∷ active) h v = elim (names a.model_id m) [
      | inl (t, e) ↦ rw t (
          All-mono (NoClash a) (λ (b : ActiveSwap). ¬ Occurs m b.evict)
            (λ b n o. n.1 (subst (λ x. Occurs x b.evict) (sym e) o)) active v.0)
      | inr (t, e) ↦ rw t (
          let (n, f) = find_active-All (NoClash a) m active sw (ground arith) v.0 in
          (
            (λ o. n.2 (subst (λ x. Occurs x a.evict) (sym f) o)),
            delete_active-Untouched active (ground arith) v.1,
          ))
    ]

    -- A swap leaves the map, and its waiters are held.
    pub delete_active-HoldsAt :
        (held : String → ℕ) (s : Fifo)
        → find_active m s.active ≡ some sw
        → Holds held s
        → HoldsAt (delete_active m s.active) (besides held sw.waiters) s
    unfolding limit
    delete_active-HoldsAt held s h v = record {
      accounted = λ j. omega (arith, v.accounted j, waiting-delete_active j s.active h);
      bounded = v.bounded;
      own = delete_active-All OwnWaiters s.active v.own;
      apart = delete_active-Apart s.active v.apart;
      unbusy = delete_active-All (Spares s.in_flight) s.active v.unbusy;
    }
