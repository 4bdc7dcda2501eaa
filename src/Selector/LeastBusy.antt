-- ===== src/Selector/LeastBusy.antt =====
-- internal/server/selector.go: the least busy of some targets.
use native.Mathlib.Nat.{mod-lt, zero-lt-suc}
use fork_llama_swap.Base.{
  ℕ, zero, suc, ◌+◌, ◌^◌, ◌%◌, ◌≤◌, ◌<◌, String, ltb, ◌==◌, if_cases, Bool-cases, ◌≡◌, ◌≢◌, ◌⊎◌,
  inl, inr, refl, sym, ap, subst, List, [], ◌∷◌, length, some, All, Occurs, arith,
}
use fork_llama_swap.Selector.{
  SpilloverTarget, SpilloverState, minimum_from, minimum, reserve, tied_with, get_elem?, turn,
  reserve_least_busy,
}

abbrev pub count : (String → ℕ) → SpilloverTarget → ℕ
count f t = f t.model_id

-- The number is the least of the counts.
abbrev IsLeast : (String → ℕ) → List SpilloverTarget → ℕ → Type 0
IsLeast f ts k =
    All (λ u. k ≤ count f u) ts × ((t : SpilloverTarget) × Occurs t ts × (count f t ≡ k))

minimum_from_lem :
    (f : String → ℕ) (m : ℕ) (ts : List SpilloverTarget)
    → (k : ℕ) × (minimum_from f (some m) ts ≡ some k)
      × (k ≤ m)
      × All (λ u. k ≤ count f u) ts
      × ((k ≡ m) ⊎ ((t : SpilloverTarget) × Occurs t ts × (count f t ≡ k)))
unfolding minimum_from
minimum_from_lem f m [] = (m, refl, omega arith, tt, inl refl)
minimum_from_lem f m (t ∷ ts) = elim (Bool-cases (ltb (count f t) m)) [
  | inl l ↦
      let r = minimum_from_lem f (count f t) ts in
      (
        r.0,
        rw l r.1,
        ground (arith, r.2, l),
        (r.2, r.3),
        elim r.4 [ inl e ↦ inr (t, inl refl, sym e) | inr o ↦ inr (o.0, inr o.1, o.2) ],
      )
  | inr l ↦
      let r = minimum_from_lem f m ts in
      (
        r.0,
        rw l r.1,
        r.2,
        (ground (arith, r.2, l), r.3),
        elim r.4 [ inl e ↦ inl e | inr o ↦ inr (o.0, inr o.1, o.2) ],
      )
]

pub minimum_lem :
    (f : String → ℕ) (ts : List SpilloverTarget)
    → ts ≢ []
    → (k : ℕ) × (minimum f ts ≡ some k) × IsLeast f ts k
unfolding minimum_from
minimum_lem f [] n = absurd (n refl)
minimum_lem f (t ∷ ts) n =
    let r = minimum_from_lem f (count f t) ts in
    (
      r.0,
      r.1,
      ((r.2, r.3), elim r.4 [ inl e ↦ (t, inl refl, sym e) | inr o ↦ (o.0, inr o.1, o.2) ]),
    )

-- Of the targets with the least count none is lost, and no other is kept.
tied_with_lem :
    (f : String → ℕ) (k : ℕ) (ts : List SpilloverTarget) (u : SpilloverTarget)
    → Occurs u (tied_with f (some k) ts)
    → Occurs u ts × (count f u ≡ k)
unfolding tied_with
tied_with_lem f k [] u o = absurd o
tied_with_lem f k (t ∷ ts) u o =
    if_cases (λ us. Occurs u us → Occurs u (t ∷ ts) × (count f u ≡ k)) (count f t == k)
      (t ∷ tied_with f (some k) ts) (tied_with f (some k) ts)
      (λ e o'. elim o' [
        | inl q ↦ (inl q, subst (λ v. count f v ≡ k) (sym q) (ground (arith, e)))
        | inr q ↦ let r = tied_with_lem f k ts u q in (inr r.0, r.1)
      ])
      (λ e q. let r = tied_with_lem f k ts u q in (inr r.0, r.1)) o

tied_with-ne :
    (f : String → ℕ) (k : ℕ) (ts : List SpilloverTarget) (t : SpilloverTarget)
    → Occurs t ts
    → count f t ≡ k
    → tied_with f (some k) ts ≢ []
unfolding tied_with
tied_with-ne f k [] t o e = absurd o
tied_with-ne f k (u ∷ ts) t o e =
    if_cases (λ us. us ≢ []) (count f u == k) (u ∷ tied_with f (some k) ts)
      (tied_with f (some k) ts) (λ _ q. cc)
      (λ d. elim o [
        | inl q ↦ absurd (ground (arith, d, e, ap (count f) q))
        | inr q ↦ tied_with-ne f k ts t q e
      ])

get_elem-within :
    (ts : List SpilloverTarget) (i : ℕ)
    → i < length ts
    → (t : SpilloverTarget) × (get_elem? ts i ≡ some t) × Occurs t ts
unfolding get_elem?
get_elem-within [] i l = absurd (omega (arith, l))
get_elem-within (t ∷ ts) zero l = (t, refl, inl refl)
get_elem-within (t ∷ ts) (suc i) l =
    let r = get_elem-within ts i (omega (arith, l)) in (r.0, r.1, inr r.2)

turn_lem :
    (rr : ℕ) (ts : List SpilloverTarget)
    → ts ≢ []
    → (t : SpilloverTarget) × (turn rr ts ≡ some t) × Occurs t ts
turn_lem rr [] n = absurd (n refl)
turn_lem rr (t ∷ ts) n =
    get_elem-within (t ∷ ts) (rr % length (t ∷ ts)) (mod-lt rr (zero-lt-suc (length ts)))

-- One of the least busy of the targets is reserved.
abbrev pub LeastOf : (String → ℕ) → List SpilloverTarget → SpilloverTarget → Type 0
LeastOf f ts t = Occurs t ts × All (λ u. count f t ≤ count f u) ts

pub reserve_least_busy_lem :
    (ts : List SpilloverTarget) (s : SpilloverState)
    → ts ≢ []
    → (t : SpilloverTarget) × (reserve_least_busy ts s
        ≡ some (reserve t (record s { rr = (s.rr + 1) % 2 ^ 64 })))
      × LeastOf s.inflight ts t
unfolding reserve_least_busy
reserve_least_busy_lem ts s n =
    let k = minimum_lem s.inflight ts n in
    let least = k.2.1 in
    let r =
      turn_lem s.rr (tied_with s.inflight (some k.0) ts)
        (tied_with-ne s.inflight k.0 ts least.0 least.1 least.2) in
    let among = tied_with_lem s.inflight k.0 ts r.0 r.2 in
    (
      r.0,
      rw (k.1, r.1) refl,
      (among.0, subst (λ n. All (λ u. n ≤ count s.inflight u) ts) (sym among.1) k.2.0),
    )
