-- ===== src/Scheduler/Invariant.antt =====
-- The invariant of the FIFO scheduler of internal/router/scheduler/fifo.go: the books of the
-- reservations, and the peace between the swaps that run at the same time.
pub mod Grants
pub mod Swaps
pub mod Drain
pub mod Requests
pub mod Loops
pub mod Cancel
pub mod Handlers
use fork_llama_swap.Base.{
  ℕ, suc, ◌+◌, ◌≤◌, ◌≡◌, ◌≢◌, refl, ap, sym, subst, String, List, [], ◌∷◌, ◌++◌, ◌=ₛ◌,
  if◌then◌else◌, All, Occurs, arith,
}
use fork_llama_swap.Scheduler.Model.{HandlerReq, ActiveSwap, Fifo, limit}

-- 1 at the model's own name, else 0.
abbrev pub hits : String → String → ℕ
hits m j = if m =ₛ j then 1 else 0

-- How many of the requests are for model `j`.
abbrev pub count : String → List HandlerReq → ℕ
count j [] = 0
count j (q ∷ qs) = hits q.model j + count j qs

-- How many requests for `j` wait for a swap.
abbrev pub waiting : String → List ActiveSwap → ℕ
waiting j [] = 0
waiting j (sw ∷ active) = count j sw.waiters + waiting j active

-- Neither swap stops the model that the other starts, and no model is stopped by both.
abbrev pub NoClash : ActiveSwap → ActiveSwap → Type 0
NoClash a b =
    (a.model_id ≢ b.model_id)
    × (¬ Occurs a.model_id b.evict)
    × (¬ Occurs b.model_id a.evict)
    × ((m : String) → Occurs m a.evict → ¬ Occurs m b.evict)

abbrev pub Apart : List ActiveSwap → Type 0
Apart [] = Unit
Apart (a ∷ active) = All (NoClash a) active × Apart active

abbrev pub IsFor : String → HandlerReq → Type 0
IsFor m q = q.model ≡ m

abbrev pub OwnWaiters : ActiveSwap → Type 0
OwnWaiters sw = All (IsFor sw.model_id) sw.waiters

abbrev pub Spares : (String → ℕ) → ActiveSwap → Type 0
Spares in_flight sw = (m : String) → Occurs m sw.evict → in_flight m ≡ 0

-- `held j` requests for `j` are admitted and neither served nor attached to a swap.
pub record Facts (held cap reserved in_flight : String → ℕ) (active : List ActiveSwap)
    : Type 0 where
  pub accounted : (j : String) → reserved j ≡ in_flight j + waiting j active + held j
  pub bounded : (j : String) → reserved j ≤ cap j
  pub own : All OwnWaiters active
  pub apart : Apart active
  pub unbusy : All (Spares in_flight) active

-- The books, with a list of swaps in place of the state's own.
abbrev pub HoldsAt : List ActiveSwap → (String → ℕ) → Fifo → Type 0
HoldsAt active held s = Facts held (limit s) s.reserved s.in_flight active

abbrev pub Holds : (String → ℕ) → Fifo → Type 0
Holds held s = Facts held (limit s) s.reserved s.in_flight s.active

abbrev pub queued_for : List HandlerReq → String → ℕ
queued_for qs j = count j qs

abbrev pub KeepsAt : List ActiveSwap → (String → ℕ) → Fifo → Fifo → Type 0
KeepsAt active held s s' = HoldsAt active held s' × (s'.queued ≡ s.queued) × (s'.active ≡ s.active)

-- Between two events the requests that are held are those of the queue.
abbrev pub Inv : Fifo → Type 0
Inv s = Holds (queued_for s.queued) s

-- The result of a step that leaves the queue and the swaps alone.
abbrev pub Keeps : (String → ℕ) → Fifo → Fifo → Type 0
Keeps held s s' = Holds held s' × (s'.queued ≡ s.queued) × (s'.active ≡ s.active)

pub count-append :
    (j : String) (xs ys : List HandlerReq) → count j (xs ++ ys) ≡ count j xs + count j ys
count-append j [] ys = omega arith
count-append j (x ∷ xs) ys = omega (arith, count-append j xs ys)

pub HoldsAt-congr :
    (active : List ActiveSwap) (held held' : String → ℕ) (s : Fifo)
    → ((j : String) → held j ≡ held' j)
    → HoldsAt active held s
    → HoldsAt active held' s
unfolding limit
HoldsAt-congr active held held' s e v = record {
  accounted = λ j. omega (arith, v.accounted j, e j);
  bounded = v.bounded;
  own = v.own;
  apart = v.apart;
  unbusy = v.unbusy;
}

pub Holds-congr :
    (held held' : String → ℕ) (s : Fifo)
    → ((j : String) → held j ≡ held' j)
    → Holds held s
    → Holds held' s
Holds-congr held held' s = HoldsAt-congr s.active held held' s

pub Keeps-of-KeepsAt :
    (held : String → ℕ) (s s' : Fifo) → KeepsAt s.active held s s' → Keeps held s s'
Keeps-of-KeepsAt held s s' k = (subst (λ a. HoldsAt a held s') (sym k.2) k.0, k.1, k.2)

pub Holds-Inv : (s s' : Fifo) → Holds (queued_for s.queued) s' → s'.queued ≡ s.queued → Inv s'
Holds-Inv s s' v e =
    Holds-congr (queued_for s.queued) (queued_for s'.queued) s' (λ j. ap (count j) (sym e)) v
