-- ===== src/Selector/Classes.antt =====
-- internal/server/selector.go: the targets that are active, and those that are cold.
use fork_llama_swap.Base.{
  true, false, ltb, ◌<◌, ◌⊎◌, Option, none, some, arith, if_cases, ◌≡◌, inl, inr, refl, sym, ap,
  subst, List, [], ◌∷◌, ◌++◌, All, Occurs,
}
use fork_llama_swap.Scheduler.Model.{ProcessState, stopped, starting, ready, stopping, shutdown}
use fork_llama_swap.Selector.{
  SpilloverTarget, SpilloverState, Running, Class, active, cold, skipped, by_inflight, local_class,
  class_of, same_class, of_class,
}

-- The test of classes is right.
same : (a b : Class) → same_class a b ≡ true → a ≡ b
same active active e = refl
same active cold e = cc
same active skipped e = cc
same cold active e = cc
same cold cold e = refl
same cold skipped e = cc
same skipped active e = cc
same skipped cold e = cc
same skipped skipped e = refl

same_class-itself : (a : Class) → same_class a a ≡ true
same_class-itself active = refl
same_class-itself cold = refl
same_class-itself skipped = refl

differ : (a b : Class) → same_class a b ≡ false → a ≡ b → ⊥
differ a b e q =
    let h : same_class a b ≡ true = subst (λ d. same_class a d ≡ true) q (same_class-itself a) in cc

-- The targets of a class are those of the list that have it.
pub of_class_sound :
    (c : Class) (class : SpilloverTarget → Class) (ts : List SpilloverTarget) (u : SpilloverTarget)
    → Occurs u (of_class c class ts)
    → Occurs u ts × (class u ≡ c)
unfolding of_class
of_class_sound c class [] u o = absurd o
of_class_sound c class (t ∷ ts) u o =
    if_cases (λ us. Occurs u us → Occurs u (t ∷ ts) × (class u ≡ c)) (same_class (class t) c)
      (t ∷ of_class c class ts) (of_class c class ts)
      (λ e o'. elim o' [
        | inl q ↦ (inl q, subst (λ v. class v ≡ c) (sym q) (same (class t) c e))
        | inr q ↦ let r = of_class_sound c class ts u q in (inr r.0, r.1)
      ])
      (λ e q. let r = of_class_sound c class ts u q in (inr r.0, r.1)) o

pub of_class_complete :
    (c : Class) (class : SpilloverTarget → Class) (P : SpilloverTarget → Type 0)
    (ts : List SpilloverTarget)
    → All P (of_class c class ts)
    → All (λ u. class u ≡ c → P u) ts
unfolding of_class
of_class_complete c class P [] h = tt
of_class_complete c class P (t ∷ ts) h =
    if_cases (λ us. All P us → All (λ u. class u ≡ c → P u) (t ∷ ts)) (same_class (class t) c)
      (t ∷ of_class c class ts) (of_class c class ts)
      (λ e k. (λ _. k.0, of_class_complete c class P ts k.1))
      (λ e k. (λ q. absurd (differ (class t) c e q), of_class_complete c class P ts k)) h

-- The target is the first of the list that is such a one.
abbrev pub FirstOf : (SpilloverTarget → Type 0) → List SpilloverTarget → SpilloverTarget → Type 0
FirstOf is ts t =
    (before : List SpilloverTarget) × (after : List SpilloverTarget) × (ts ≡ before ++ t ∷ after)
    × All (λ u. is u → ⊥) before
    × is t

pub of_class-first :
    (c : Class) (class : SpilloverTarget → Class) (ts : List SpilloverTarget) (t : SpilloverTarget)
    (rest : List SpilloverTarget)
    → of_class c class ts ≡ t ∷ rest
    → FirstOf (λ u. class u ≡ c) ts t
unfolding of_class
of_class-first c class [] t rest e = cc
of_class-first c class (u ∷ ts) t rest e =
    if_cases (λ us. us ≡ t ∷ rest → FirstOf (λ u. class u ≡ c) (u ∷ ts) t) (same_class (class u) c)
      (u ∷ of_class c class ts) (of_class c class ts)
      (λ d q.
        let h : u ≡ t = cc in
        ([], ts, ap (λ v. v ∷ ts) h, tt, subst (λ v. class v ≡ c) h (same (class u) c d)))
      (λ d q.
        let r = of_class-first c class ts t rest q in
        (u ∷ r.0, r.1, ap (λ v. u ∷ v) r.2, (λ w. differ (class u) c d w, r.3), r.4))
      e

-- What the classes mean. A target may run if it is not local, or its process does not run or is stopped.
abbrev pub MayRun : Running → SpilloverTarget → Type 0
MayRun running t =
    (t.is_local ≡ false)
    ⊎ ((t.is_local ≡ true) × ((running t.model_id ≡ none) ⊎ (running t.model_id ≡ some stopped)))

-- An active target is local and its process is ready or starts, or it may run and holds a request. A cold
-- one may run and holds none. A skipped one is local and its process is stopping or shut down.
abbrev pub Is : SpilloverState → Running → Class → SpilloverTarget → Type 0
Is s running active t =
    ((t.is_local ≡ true)
      × ((running t.model_id ≡ some ready) ⊎ (running t.model_id ≡ some starting)))
    ⊎ (MayRun running t × (0 < s.inflight t.model_id))
Is s running cold t = MayRun running t × (s.inflight t.model_id ≡ 0)
Is s running skipped t =
    (t.is_local ≡ true)
    × ((running t.model_id ≡ some stopping) ⊎ (running t.model_id ≡ some shutdown))

busy-Is :
    (s : SpilloverState) (running : Running) (t : SpilloverTarget)
    → MayRun running t
    → Is s running (by_inflight (s.inflight t.model_id)) t
busy-Is s running t h =
    if_cases (λ c. Is s running c t) (ltb 0 (s.inflight t.model_id)) active cold
      (λ e. inr (h, ground (arith, e))) (λ e. (h, ground (arith, e)))

local-Is :
    (s : SpilloverState) (running : Running) (t : SpilloverTarget) (o : Option ProcessState)
    → t.is_local ≡ true
    → running t.model_id ≡ o
    → Is s running (local_class o (s.inflight t.model_id)) t
local-Is s running t none l e = busy-Is s running t (inr (l, inl e))
local-Is s running t (some stopped) l e = busy-Is s running t (inr (l, inr e))
local-Is s running t (some starting) l e = inl (l, inr e)
local-Is s running t (some ready) l e = inl (l, inl e)
local-Is s running t (some stopping) l e = (l, inl e)
local-Is s running t (some shutdown) l e = (l, inr e)

pub class_of-Is :
    (s : SpilloverState) (running : Running) (t : SpilloverTarget)
    → Is s running (class_of s running t) t
class_of-Is s running t =
    if_cases (λ c. Is s running c t) t.is_local _ _
      (λ l. local-Is s running t (running t.model_id) l refl) (λ l. busy-Is s running t (inl l))

-- No target has two classes.
one_class :
    (s : SpilloverState) (running : Running) (t : SpilloverTarget) (b c : Class)
    → Is s running b t
    → Is s running c t
    → b ≡ c
one_class s running t active active h k = refl
one_class s running t cold cold h k = refl
one_class s running t skipped skipped h k = refl
one_class s running t active cold h k = absurd (ground (arith, h, k))
one_class s running t cold active h k = absurd (ground (arith, h, k))
one_class s running t active skipped h k = absurd (ground (arith, h, k))
one_class s running t skipped active h k = absurd (ground (arith, h, k))
one_class s running t cold skipped h k = absurd (ground (arith, h, k))
one_class s running t skipped cold h k = absurd (ground (arith, h, k))

pub Is-class_of :
    (s : SpilloverState) (running : Running) (c : Class) (t : SpilloverTarget)
    → Is s running c t
    → class_of s running t ≡ c
Is-class_of s running c t k =
    one_class s running t (class_of s running t) c (class_of-Is s running t) k
