-- ===== src/Scheduler/Invariant/Cancel.antt =====
-- internal/router/scheduler/fifo.go: OnCancel returns, and keeps the books.
use mathlib.Core.List.{append_assoc, append-nil}
use fork_llama_swap.Base.{
  ℕ, ◌+◌, ◌≡◌, refl, sym, subst, ◌∙◌, String, Bool, true, false, Bool-cases, if_keeps, ◌==◌, List,
  [], ◌∷◌, ◌++◌, All, All-append, Ensures, Ensures-bind, Ensures-mono, inl, inr, arith,
}
use fork_llama_swap.Scheduler.Model.{HandlerReq, Fifo, ActiveSwap, limit}
use fork_llama_swap.Scheduler.Grant.{broadcast_keeps}
use fork_llama_swap.Scheduler.Events.{prune, prune_active, on_cancel}
use fork_llama_swap.Scheduler.Invariant.{
  HoldsAt, HoldsAt-congr, KeepsAt, Inv, Apart, NoClash, IsFor, OwnWaiters, Spares, count, waiting,
  count-append, queued_for,
}
use fork_llama_swap.Scheduler.Invariant.Grants.{release-KeepsAt}

abbrev pub with_waiters : ActiveSwap → List HandlerReq → ActiveSwap
with_waiters sw ws = record sw { waiters = ws }

-- The waiters of one swap of a list are replaced.
module _ (sw : ActiveSwap) (ws ws' : List HandlerReq) where
  All-middle :
      (P : ActiveSwap → Type 0) (done rest : List ActiveSwap)
      → (P (with_waiters sw ws) → P (with_waiters sw ws'))
      → All P (done ++ with_waiters sw ws ∷ rest)
      → All P (done ++ with_waiters sw ws' ∷ rest)
  All-middle P [] rest f h = (f h.0, h.1)
  All-middle P (a ∷ done) rest f h = (h.0, All-middle P done rest f h.1)

  Apart-middle :
      (done rest : List ActiveSwap)
      → Apart (done ++ with_waiters sw ws ∷ rest)
      → Apart (done ++ with_waiters sw ws' ∷ rest)
  Apart-middle [] rest h = h
  Apart-middle (a ∷ done) rest h =
      (All-middle (NoClash a) done rest (λ n. n) h.0, Apart-middle done rest h.1)

  waiting-middle :
      (j : String) (done rest : List ActiveSwap)
      → waiting j (done ++ with_waiters sw ws ∷ rest) + count j ws'
        ≡ waiting j (done ++ with_waiters sw ws' ∷ rest) + count j ws
  waiting-middle j [] rest = omega arith
  waiting-middle j (a ∷ done) rest = omega (arith, waiting-middle j done rest)

  own_at :
      (done rest : List ActiveSwap)
      → All OwnWaiters (done ++ with_waiters sw ws ∷ rest)
      → All (IsFor sw.model_id) ws
  own_at [] rest h = h.0
  own_at (a ∷ done) rest h = own_at done rest h.1

  middle-HoldsAt :
      (done rest : List ActiveSwap) (held held' : String → ℕ) (s : Fifo)
      → All (IsFor sw.model_id) ws'
      → ((j : String) → held j + count j ws ≡ held' j + count j ws')
      → HoldsAt (done ++ with_waiters sw ws ∷ rest) held s
      → HoldsAt (done ++ with_waiters sw ws' ∷ rest) held' s
  unfolding limit
  middle-HoldsAt done rest held held' s own e v = record {
    accounted = λ j. omega (arith, v.accounted j, e j, waiting-middle j done rest);
    bounded = v.bounded;
    own = All-middle OwnWaiters done rest (λ n. own) v.own;
    apart = Apart-middle done rest v.apart;
    unbusy = All-middle (Spares s.in_flight) done rest (λ n. n) v.unbusy;
  }

-- What a loop of OnCancel leaves: the books, and requests of which `P` held before.
abbrev Pruned :
    (String → ℕ)
    → (HandlerReq → Type 0)
    → List ActiveSwap
    → Fifo
    → Fifo × List HandlerReq × Bool
    → Type 0
Pruned rest P active s r = KeepsAt active (λ j. rest j + count j r.1) s r.0 × All P r.1

prune-Pruned :
    (ch : ℕ) (rest : String → ℕ) (P : HandlerReq → Type 0) (active : List ActiveSwap) (s : Fifo)
    (kept : List HandlerReq) (removed : Bool) (pending : List HandlerReq)
    → All P kept
    → All P pending
    → HoldsAt active (λ j. rest j + (count j kept + count j pending)) s
    → Ensures (Pruned rest P active s) (prune ch s kept removed pending)
unfolding prune
prune-Pruned ch rest P active s kept removed [] p q v =
    ((HoldsAt-congr active _ _ s (λ j. omega arith) v, refl, refl), p)
prune-Pruned ch rest P active s kept removed (r ∷ pending) p q v =
    elim (Bool-cases (r.respond == ch)) [
      | inl t ↦
          rw (t, prune)
            (Ensures-bind (KeepsAt active (λ j. rest j + (count j kept + count j pending)) s) _ _ _
              (release-KeepsAt active _ _ s r.model (λ j. omega arith) v)
              (λ u k.
                Ensures-mono (Pruned rest P active u) (Pruned rest P active s) _
                  (λ x h. ((h.0.0, h.0.1 ∙ k.1, h.0.2 ∙ k.2), h.1))
                  (prune-Pruned ch rest P active u kept true pending p q.1 k.0)))
      | inr t ↦
          rw (t, prune)
            (prune-Pruned ch rest P active s (kept ++ r ∷ []) removed pending
              (All-append P kept (r ∷ []) p (q.0, tt)) q.1
              (HoldsAt-congr active _ _ s (λ j. omega (arith, count-append j kept (r ∷ []))) v))
    ]

prune_active-HoldsAt :
    (ch : ℕ) (held : String → ℕ) (s : Fifo) (done : List ActiveSwap) (removed : Bool)
    (pending : List ActiveSwap)
    → HoldsAt (done ++ pending) held s
    → Ensures
        (λ r. HoldsAt r.1 held r.0 × (r.0.queued ≡ s.queued))
        (prune_active ch s done removed pending)
unfolding prune_active
prune_active-HoldsAt ch held s done removed [] v =
    (subst (λ a. HoldsAt a held s) (append-nil done) v, refl)
prune_active-HoldsAt ch held s done removed (sw ∷ pending) v =
    Ensures-bind (Pruned held (IsFor sw.model_id) (emptied []) s) _ _ _
      (prune-Pruned ch held (IsFor sw.model_id) (emptied []) s [] removed sw.waiters tt
        (own_at sw sw.waiters [] done pending v.own)
        (middle-HoldsAt sw sw.waiters [] done pending held _ s tt (λ j. omega arith) v))
      (λ r h.
        Ensures-mono (λ x. HoldsAt x.1 held x.0 × (x.0.queued ≡ r.0.queued)) _ _
          (λ x k. (k.0, k.1 ∙ h.0.1))
          (prune_active-HoldsAt ch held r.0 (done ++ with_waiters sw r.1 ∷ []) r.2 pending (
            subst (λ a. HoldsAt a held r.0)
              (sym (append_assoc done (with_waiters sw r.1 ∷ []) pending))
              (middle-HoldsAt sw [] r.1 done pending _ held r.0 h.1 (λ j. omega arith) h.0.0))))
  where
    emptied : List HandlerReq → List ActiveSwap
    emptied ws = done ++ with_waiters sw ws ∷ pending

pub on_cancel-Inv : (s : Fifo) (req : HandlerReq) → Inv s → Ensures Inv (on_cancel s req)
unfolding on_cancel limit
on_cancel-Inv s req v =
    Ensures-bind (Pruned (λ j. 0) (λ q. Unit) s.active s) Inv _ _
      (prune-Pruned req.respond (λ j. 0) (λ q. Unit) s.active s [] false s.queued tt
        (all_unit s.queued) (HoldsAt-congr s.active _ _ s (λ j. omega arith) v))
      (λ r h.
        Ensures-bind (λ x. HoldsAt x.1 (queued_for r.1) x.0 × (x.0.queued ≡ r.0.queued)) Inv _ _
          (prune_active-HoldsAt req.respond (queued_for r.1) r.0 [] r.2 r.0.active (
            subst (λ a. HoldsAt a (queued_for r.1) r.0) (sym h.0.2)
              (HoldsAt-congr s.active _ _ r.0 (λ j. omega arith) h.0.0)))
          (λ x k.
            let t = record x.0 { queued = r.1; active = x.1 } in
            if_keeps Inv x.2 _ _ (broadcast_keeps Inv (λ e s k. k) t k.0) k.0))
  where
    all_unit : (qs : List HandlerReq) → All (λ (q : HandlerReq). Unit {0}) qs
    all_unit [] = tt
    all_unit (q ∷ qs) = (tt, all_unit qs)
