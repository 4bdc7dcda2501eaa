-- ===== src/ByteCache/Books.antt =====
-- internal/cache/cache.go: the ids, the map and the size agree while entries leave.
use fork_llama_swap.Base.{
  ℕ, ◌+◌, ◌-◌, ◌≤◌, ◌≡◌, ◌≢◌, refl, ap, subst, ◌↔◌, ◌⊎◌, inl, inr, true, false, ltb, ◌==◌, if_cases,
  if_keeps, List, [], ◌∷◌, Occurs, Distinct, Option, none, arith,
}
use fork_llama_swap.ByteCache.{
  Bytes, Cache, put, bytes_of, remove_order, evict_oldest, is_some, forget,
}

abbrev pub total : (ℕ → Option Bytes) → List ℕ → ℕ
total items [] = 0
total items (id ∷ order) = bytes_of (items id) + total items order

-- The books, but for the id: what is in the order has an entry, and the size is that of the entries.
pub record Books (id : ℕ) (c : Cache) (order : List ℕ) : Type 0 where
  pub distinct : Distinct order
  pub absent : Occurs id order → ⊥
  pub known : (k : ℕ) → (k ≡ id) ⊎ (Occurs k order ↔ (is_some (c.items k) ≡ true))
  pub sized : c.size ≡ total c.items order

pub record IsWellFormed (c : Cache) : Type 0 where
  pub distinct : Distinct c.order
  pub known : (k : ℕ) → Occurs k c.order ↔ (is_some (c.items k) ≡ true)
  pub sized : c.size ≡ total c.items c.order
  pub bounded : c.size ≤ c.max_size

pub total-put :
    (items : ℕ → Option Bytes) (id : ℕ) (v : Option Bytes) (order : List ℕ)
    → (Occurs id order → ⊥)
    → total (put items id v) order ≡ total items order
total-put items id v [] n = refl
total-put items id v (k ∷ order) n = ground (arith, n, total-put items id v order (λ o. n (inr o)))

-- The cache without the entry of the id.
abbrev pub dropped : Cache → ℕ → Cache
dropped c id = record c { items = put c.items id none; size = c.size - bytes_of (c.items id) }

pub same_or_other : (k id : ℕ) → (k ≡ id) ⊎ ((k ≡ id → ⊥) × ((k == id) ≡ false))
same_or_other k id = ground arith

known_after :
    (c : Cache) (oldest k : ℕ) (order : List ℕ)
    → (Occurs oldest order → ⊥)
    → (Occurs k (oldest ∷ order) ↔ (is_some (c.items k) ≡ true))
    → Occurs k order ↔ (is_some (put c.items oldest none k) ≡ true)
known_after c oldest k order n f = elim (same_or_other k oldest) [
  | inl e ↦ (λ o. absurd (n (subst (λ i. Occurs i order) e o)), λ h. absurd (ground (arith, e)))
  | inr m ↦ ground (arith, m, f)
]

evicted-Books :
    (id : ℕ) (c : Cache) (oldest : ℕ) (order : List ℕ)
    → Books id c (oldest ∷ order)
    → Books id (dropped c oldest) order
evicted-Books id c oldest order b = record {
  distinct = b.distinct.1;
  absent = λ o. b.absent (inr o);
  known = λ k. elim (b.known k) [
    | inl e ↦ inl e
    | inr f ↦ inr (known_after c oldest k order b.distinct.0 f)
  ];
  sized = omega (arith, b.sized, total-put c.items oldest none order b.distinct.0);
}

pub evict_oldest-Books :
    (id needed : ℕ) (c : Cache) (order : List ℕ)
    → Books id c order
    → Books id (evict_oldest needed c order) (evict_oldest needed c order).order
unfolding evict_oldest
evict_oldest-Books id needed c [] b = record {
  distinct = tt;
  absent = λ o. o;
  known = b.known;
  sized = b.sized;
}
evict_oldest-Books id needed c (oldest ∷ order) b =
    if_keeps (λ (r : Cache). Books id r r.order) (ltb c.max_size (c.size + needed)) _ _
      (evict_oldest-Books id needed (dropped c oldest) order (evicted-Books id c oldest order b))
      (record { distinct = b.distinct; absent = b.absent; known = b.known; sized = b.sized })

pub evict_oldest-room :
    (needed : ℕ) (c : Cache) (order : List ℕ)
    → c.size ≡ total c.items order
    → Distinct order
    → needed ≤ c.max_size
    → ((evict_oldest needed c order).max_size ≡ c.max_size)
      × ((evict_oldest needed c order).size + needed ≤ c.max_size)
unfolding evict_oldest
evict_oldest-room needed c [] e d h = (refl, omega (arith, e))
evict_oldest-room needed c (oldest ∷ order) e d h =
    if_cases (λ (r : Cache). (r.max_size ≡ c.max_size) × (r.size + needed ≤ c.max_size))
      (ltb c.max_size (c.size + needed)) _ _
      (λ t.
        evict_oldest-room needed (dropped c oldest) order
          (omega (arith, e, total-put c.items oldest none order d.0)) d.1 h)
      (λ f. (refl, ground arith))

remove_order-Occurs :
    (id : ℕ) (order : List ℕ) (k : ℕ)
    → Distinct order
    → Occurs k (remove_order id order) ↔ (Occurs k order × (k ≢ id))
unfolding remove_order
remove_order-Occurs id [] k d = (λ h. absurd h, λ h. absurd h.0)
remove_order-Occurs id (v ∷ order) k d =
    if_cases (λ l. Occurs k l ↔ (Occurs k (v ∷ order) × (k ≢ id))) (v == id) _ _
      (λ t. (
        λ o. (inr o, λ e. d.0 (subst (λ i. Occurs i order) (same t e) o)),
        λ h. elim h.0 [ inl e ↦ absurd (h.1 (ground (arith, e))) | inr o ↦ o ],
      ))
      (λ f. (
        λ o. elim o [
          | inl e ↦ (inl e, λ q. ground (arith, e))
          | inr r ↦ (
            inr ((remove_order-Occurs id order k d.1).0 r).0,
            ((remove_order-Occurs id order k d.1).0 r).1,
          )
        ],
        λ h. elim h.0 [
          | inl e ↦ inl e
          | inr o ↦ inr ((remove_order-Occurs id order k d.1).1 (o, h.1))
        ],
      ))
  where
    same : (v == id) ≡ true → k ≡ id → k ≡ v
    same t e = ground (arith, e)

remove_order-Distinct :
    (id : ℕ) (order : List ℕ) → Distinct order → Distinct (remove_order id order)
unfolding remove_order
remove_order-Distinct id [] d = tt
remove_order-Distinct id (v ∷ order) d =
    if_keeps Distinct (v == id) _ _ d.1
      ((λ o. d.0 ((remove_order-Occurs id order v d.1).0 o).0), remove_order-Distinct id order d.1)

remove_order-total :
    (items : ℕ → Option Bytes) (id : ℕ) (order : List ℕ)
    → Occurs id order
    → bytes_of (items id) + total items (remove_order id order) ≡ total items order
unfolding remove_order
remove_order-total items id [] o = absurd o
remove_order-total items id (v ∷ order) o =
    if_cases (λ l. bytes_of (items id) + total items l ≡ bytes_of (items v) + total items order)
      (v == id) _ _ (λ t. omega (arith, ap (λ i. bytes_of (items i)) (at_head t)))
      (λ f. elim o [
        | inl e ↦ absurd (ground (arith, e))
        | inr r ↦ omega (arith, remove_order-total items id order r)
      ])
  where
    at_head : (v == id) ≡ true → v ≡ id
    at_head t = ground arith

pub forget-Books :
    (c : Cache) (id : ℕ) → IsWellFormed c → Books id (forget c id) (forget c id).order
unfolding forget
forget-Books c id w =
    if_cases (λ (r : Cache). Books id r r.order) (is_some (c.items id)) _ _
      (λ t. record {
        distinct = remove_order-Distinct id c.order w.distinct;
        absent = λ o. ((remove_order-Occurs id c.order id w.distinct).0 o).1 refl;
        known = λ k. elim (same_or_other k id) [
          | inl e ↦ inl e
          | inr m ↦ inr (
            λ o. (w.known k).0 ((remove_order-Occurs id c.order k w.distinct).0 o).0,
            λ h. (remove_order-Occurs id c.order k w.distinct).1 ((w.known k).1 h, m.0),
          )
        ];
        sized = omega (arith, w.sized, remove_order-total c.items id c.order ((w.known id).1 t));
      })
      (λ f. record {
        distinct = w.distinct;
        absent = λ o. ground (arith, (w.known id).0 o);
        known = λ k. inr (w.known k);
        sized = w.sized;
      })
