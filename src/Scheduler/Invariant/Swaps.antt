-- ===== src/Scheduler/Invariant/Swaps.antt =====
-- internal/router/scheduler/fifo.go: a request that joins a swap, and a swap that begins, keep the
-- books and the peace between swaps.
use fork_llama_swap.Base.{
  ℕ, ◌+◌, ◌%◌, ◌^◌, ◌≡◌, ◌≢◌, refl, sym, subst, inl, inr, String, true, false, List, [], ◌∷◌, some,
  none, same_name, names, All, All-append, Occurs, arith,
}
use fork_llama_swap.Scheduler.Model.{HandlerReq, Fifo, ActiveSwap, limit}
use fork_llama_swap.Scheduler.Collision.{
  contains_string, slices_overlap, collides, collides_with, conflicts_with_in_flight,
}
use fork_llama_swap.Scheduler.Decide.{find_active, add_waiter, begin_swap, new_swap}
use fork_llama_swap.Scheduler.Invariant.{
  Holds, Spares, Apart, NoClash, OwnWaiters, IsFor, hits, waiting, count-append,
}
use fork_llama_swap.Scheduler.Invariant.Grants.{OneLess}

pub contains_string-Occurs :
    (xs : List String) (m : String) → Occurs m xs → contains_string xs m ≡ true
unfolding contains_string
contains_string-Occurs [] m o = elim o [ ]
contains_string-Occurs (x ∷ xs) m (inl e) = rw (e, same_name x)
contains_string-Occurs (x ∷ xs) m (inr o) = ground (arith, contains_string-Occurs xs m o)

pub not-contains_string :
    (xs : List String) (m : String) → contains_string xs m ≡ false → ¬ Occurs m xs
not-contains_string xs m h o = cc (contains_string-Occurs xs m o)

pub slices_overlap-disjoint :
    (xs ys : List String)
    → slices_overlap xs ys ≡ false
    → (m : String) → Occurs m xs
    → ¬ Occurs m ys
unfolding slices_overlap
slices_overlap-disjoint [] ys h m i o = elim i [ ]
slices_overlap-disjoint (x ∷ xs) ys h m (inl e) o =
    ground (arith, contains_string-Occurs ys x (subst (λ k. Occurs k ys) e o))
slices_overlap-disjoint (x ∷ xs) ys h m (inr i) o =
    slices_overlap-disjoint xs ys (ground arith) m i o

-- A swap that collides with none of the active ones is at peace with those of other models.
pub collides_with-NoClash :
    (new : ActiveSwap) (active : List ActiveSwap)
    → collides_with new.model_id new.evict active ≡ false
    → All (λ (sw : ActiveSwap). sw.model_id ≢ new.model_id) active
    → All (NoClash new) active
unfolding collides_with collides
collides_with-NoClash new [] h n = tt
collides_with-NoClash new (sw ∷ active) h n = elim (names sw.model_id new.model_id) [
  | inl (t, e) ↦ absurd (n.0 e)
  | inr (t, e) ↦ (
    (
      λ q. n.0 (sym q),
      not-contains_string sw.evict new.model_id (ground arith),
      not-contains_string new.evict sw.model_id (ground arith),
      slices_overlap-disjoint new.evict sw.evict (ground arith),
    ),
    collides_with-NoClash new active (ground arith) n.1,
  )
]

pub find_active-none :
    (m : String) (active : List ActiveSwap)
    → find_active m active ≡ none
    → All (λ (sw : ActiveSwap). sw.model_id ≢ m) active
unfolding find_active
find_active-none m [] h = tt
find_active-none m (sw ∷ active) h = elim (names sw.model_id m) [
  | inl (t, e) ↦ absurd (ground arith)
  | inr (t, e) ↦ (e, find_active-none m active (ground arith))
]

pub conflicts-Spares :
    (evict : List String) (in_flight : String → ℕ)
    → conflicts_with_in_flight evict in_flight ≡ false
    → (m : String) → Occurs m evict
    → in_flight m ≡ 0
unfolding conflicts_with_in_flight
conflicts-Spares [] in_flight h m o = elim o [ ]
conflicts-Spares (x ∷ evict) in_flight h m (inl e) = rw e (ground arith)
conflicts-Spares (x ∷ evict) in_flight h m (inr o) =
    conflicts-Spares evict in_flight (ground arith) m o

module _ (req : HandlerReq) where
  waiting-add_waiter :
      (j : String) (active : List ActiveSwap) (sw : ActiveSwap)
      → find_active req.model active ≡ some sw
      → waiting j (add_waiter req active) ≡ waiting j active + hits req.model j
  unfolding find_active add_waiter
  waiting-add_waiter j [] sw h = cc
  waiting-add_waiter j (a ∷ active) sw h = elim (names a.model_id req.model) [
    | inl (t, e) ↦ rw t (omega (arith, count-append j a.waiters (req ∷ [])))
    | inr (t, e) ↦ rw t (omega (arith, waiting-add_waiter j active sw (ground arith)))
  ]

  add_waiter-own :
      (active : List ActiveSwap) → All OwnWaiters active → All OwnWaiters (add_waiter req active)
  unfolding add_waiter
  add_waiter-own [] v = tt
  add_waiter-own (a ∷ active) v = elim (names a.model_id req.model) [
    | inl (t, e) ↦ rw t (All-append (IsFor a.model_id) a.waiters (req ∷ []) v.0 (sym e, tt), v.1)
    | inr (t, e) ↦ rw t (v.0, add_waiter-own active v.1)
  ]

  add_waiter-NoClash :
      (b : ActiveSwap) (active : List ActiveSwap)
      → All (NoClash b) active
      → All (NoClash b) (add_waiter req active)
  unfolding add_waiter
  add_waiter-NoClash b [] v = tt
  add_waiter-NoClash b (a ∷ active) v = elim (names a.model_id req.model) [
    | inl (t, e) ↦ rw t v
    | inr (t, e) ↦ rw t (v.0, add_waiter-NoClash b active v.1)
  ]

  add_waiter-Apart : (active : List ActiveSwap) → Apart active → Apart (add_waiter req active)
  unfolding add_waiter
  add_waiter-Apart [] v = tt
  add_waiter-Apart (a ∷ active) v = elim (names a.model_id req.model) [
    | inl (t, e) ↦ rw t v
    | inr (t, e) ↦ rw t (add_waiter-NoClash a active v.0, add_waiter-Apart active v.1)
  ]

  add_waiter-Spares :
      (in_flight : String → ℕ) (active : List ActiveSwap)
      → All (Spares in_flight) active
      → All (Spares in_flight) (add_waiter req active)
  unfolding add_waiter
  add_waiter-Spares f [] v = tt
  add_waiter-Spares f (a ∷ active) v = elim (names a.model_id req.model) [
    | inl (t, e) ↦ rw t v
    | inr (t, e) ↦ rw t (v.0, add_waiter-Spares f active v.1)
  ]

  module _ (held held' : String → ℕ) (s : Fifo) (less : OneLess held held' req.model) where
    -- A request that joins the swap of its model.
    pub join-Holds :
        (sw : ActiveSwap)
        → find_active req.model s.active ≡ some sw
        → Holds held s
        → Holds held' (record s { active = add_waiter req s.active })
    unfolding limit
    join-Holds sw h v = record {
      accounted = λ j. omega (arith, v.accounted j, less j, waiting-add_waiter j s.active sw h);
      bounded = v.bounded;
      own = add_waiter-own s.active v.own;
      apart = add_waiter-Apart s.active v.apart;
      unbusy = add_waiter-Spares s.in_flight s.active v.unbusy;
    }

    -- A swap that begins: the two tests of the decision tree have passed.
    pub begin_swap-Holds :
        (evict running : List String)
        → find_active req.model s.active ≡ none
        → collides_with req.model evict s.active ≡ false
        → conflicts_with_in_flight evict s.in_flight ≡ false
        → Holds held s
        → Holds held' (begin_swap s req evict running)
    unfolding limit begin_swap
    begin_swap-Holds evict running fresh free idle v = record {
      accounted = λ j. omega (arith, v.accounted j, less j);
      bounded = v.bounded;
      own = ((refl, tt), v.own);
      apart = (
        collides_with-NoClash (new_swap req ((s.next_generation + 1) % 2 ^ 64) evict) s.active free
            (find_active-none req.model s.active fresh),
        v.apart,
      );
      unbusy = (conflicts-Spares evict s.in_flight idle, v.unbusy);
    }
