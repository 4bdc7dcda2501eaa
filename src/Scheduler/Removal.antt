-- ===== src/Scheduler/Removal.antt =====
-- internal/router/scheduler/fifo.go: what OnCancel removes.
use mathlib.Core.List.{append_assoc, append-nil}
use fork_llama_swap.Base.{
  ℕ, ◌≡◌, refl, ap, sym, ◌∙◌, String, Bool, true, false, Bool-cases, if_keeps, if◌then◌else◌, ◌==◌,
  leb, List, [], ◌∷◌, ◌++◌, map, Ensures, Ensures-mono, Ensures-and, Whenever, Whenever-bind,
  Whenever-mono, inl, inr,
}
use fork_llama_swap.Scheduler.Model.{HandlerReq, Fifo, ActiveSwap, release}
use fork_llama_swap.Scheduler.Grant.{broadcast_keeps}
use fork_llama_swap.Scheduler.Events.{prune, prune_active, on_cancel}
use fork_llama_swap.Scheduler.Invariant.{Inv}
use fork_llama_swap.Scheduler.Invariant.Cancel.{on_cancel-Inv}
use fork_llama_swap.Scheduler.Reach.{Reachable, Reachable-Good}

-- The requests whose answers go to other channels, in their order.
pub without : ℕ → List HandlerReq → List HandlerReq
without ch [] = []
without ch (q ∷ qs) = if q.respond == ch then without ch qs else q ∷ without ch qs

pub swap_without : ℕ → ActiveSwap → ActiveSwap
swap_without ch sw = record sw { waiters = without ch sw.waiters }

-- A loop of OnCancel: the active swaps and the counts of served requests are left alone.
abbrev Leaves : Fifo → List HandlerReq → Fifo × List HandlerReq × Bool → Type 0
Leaves s kept r = (r.1 ≡ kept) × (r.0.active ≡ s.active) × (r.0.in_flight ≡ s.in_flight)

release-Leaves :
    (s : Fifo) (m : String)
    → Whenever (λ t. (t.active ≡ s.active) × (t.in_flight ≡ s.in_flight)) (release s m)
unfolding release
release-Leaves s m =
    if_keeps (Whenever (λ (t : Fifo). (t.active ≡ s.active) × (t.in_flight ≡ s.in_flight)))
      (leb (s.reserved m) 0) _ _ tt (refl, refl)

prune-Leaves :
    (ch : ℕ) (s : Fifo) (kept : List HandlerReq) (removed : Bool) (pending : List HandlerReq)
    → Whenever (Leaves s (kept ++ without ch pending)) (prune ch s kept removed pending)
unfolding prune without
prune-Leaves ch s kept removed [] = (sym (append-nil kept), refl, refl)
prune-Leaves ch s kept removed (q ∷ pending) = elim (Bool-cases (q.respond == ch)) [
  | inl t ↦
      rw (t, prune, without)
        (Whenever-bind (λ t. (t.active ≡ s.active) × (t.in_flight ≡ s.in_flight))
          (Leaves s (kept ++ without ch pending)) _ _ (release-Leaves s q.model)
          (λ u k.
            Whenever-mono (Leaves u (kept ++ without ch pending))
              (Leaves s (kept ++ without ch pending)) _ (λ r h. (h.0, h.1 ∙ k.0, h.2 ∙ k.1))
              (prune-Leaves ch u kept true pending)))
  | inr t ↦
      rw (t, prune, without)
        (Whenever-mono (Leaves s ((kept ++ q ∷ []) ++ without ch pending))
          (Leaves s (kept ++ q ∷ without ch pending)) _
          (λ r h. (h.0 ∙ append_assoc kept (q ∷ []) (without ch pending), h.1, h.2))
          (prune-Leaves ch s (kept ++ q ∷ []) removed pending))
]

abbrev LeavesSwaps : Fifo → List ActiveSwap → Fifo × List ActiveSwap × Bool → Type 0
LeavesSwaps s kept r = (r.1 ≡ kept) × (r.0.in_flight ≡ s.in_flight)

prune_active-LeavesSwaps :
    (ch : ℕ) (s : Fifo) (done : List ActiveSwap) (removed : Bool) (pending : List ActiveSwap)
    → Whenever
        (LeavesSwaps s (done ++ map (swap_without ch) pending))
        (prune_active ch s done removed pending)
unfolding prune_active swap_without
prune_active-LeavesSwaps ch s done removed [] = (sym (append-nil done), refl)
prune_active-LeavesSwaps ch s done removed (sw ∷ pending) =
    Whenever-bind (Leaves s (without ch sw.waiters))
      (LeavesSwaps s (done ++ swap_without ch sw ∷ map (swap_without ch) pending)) _ _
      (prune-Leaves ch s [] removed sw.waiters)
      (λ r h.
        Whenever-mono
          (LeavesSwaps r.0
            ((done ++ record sw { waiters = r.1 } ∷ []) ++ map (swap_without ch) pending))
          (LeavesSwaps s (done ++ swap_without ch sw ∷ map (swap_without ch) pending)) _
          (λ x k. (
            k.0
                ∙ append_assoc done (record sw { waiters = r.1 } ∷ [])
                    (map (swap_without ch) pending)
                ∙ ap (λ w. done ++ record sw { waiters = w } ∷ map (swap_without ch) pending) h.0,
            k.1 ∙ h.2,
          ))
          (prune_active-LeavesSwaps ch r.0 (done ++ record sw { waiters = r.1 } ∷ []) r.2 pending))

-- What a cancelled request leaves.
abbrev pub Cancelled : ℕ → Fifo → Fifo → Type 0
Cancelled ch s t =
    (t.queued ≡ without ch s.queued)
    × (t.active ≡ map (swap_without ch) s.active)
    × (t.in_flight ≡ s.in_flight)

on_cancel-Cancelled :
    (s : Fifo) (req : HandlerReq) → Whenever (Cancelled req.respond s) (on_cancel s req)
unfolding on_cancel
on_cancel-Cancelled s req =
    Whenever-bind (Leaves s (without req.respond s.queued)) (Cancelled req.respond s) _ _
      (prune-Leaves req.respond s [] false s.queued)
      (λ r h.
        Whenever-bind (LeavesSwaps r.0 (map (swap_without req.respond) r.0.active))
          (Cancelled req.respond s) _ _ (prune_active-LeavesSwaps req.respond r.0 [] r.2 r.0.active)
          (λ x k.
            let t = record x.0 { queued = r.1; active = x.1 } in
            let c : Cancelled req.respond s t =
              (h.0, k.0 ∙ ap (map (swap_without req.respond)) h.1, k.1 ∙ h.2) in
            if_keeps (Cancelled req.respond s) x.2 _ _
              (broadcast_keeps (Cancelled req.respond s) (λ e s k. k) t c) c))

-- In every reachable state a cancellation returns and removes the requests of its channel from the
-- queue and from the waiters of every swap, keeps all others in their order, drops no swap and
-- leaves the counts of served requests alone.
pub on_cancel_removes :
    (eviction_for : String → List String → List String) (s : Fifo) (req : HandlerReq)
    → Reachable eviction_for s
    → Ensures (Cancelled req.respond s) (on_cancel s req)
on_cancel_removes eviction_for s req r =
    Ensures-mono (λ t. Inv t × Cancelled req.respond s t) (Cancelled req.respond s) _ (λ t h. h.1)
      (Ensures-and Inv (Cancelled req.respond s) _
        (on_cancel-Inv s req (Reachable-Good eviction_for r).inv) (on_cancel-Cancelled s req))
