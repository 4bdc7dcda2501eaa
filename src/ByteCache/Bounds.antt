-- ===== src/ByteCache/Bounds.antt =====
-- internal/cache/cache.go: an entry that is added, and what leaves for it.
use fork_llama_swap.Base.{
  ℕ, ◌+◌, ◌≤◌, ◌≡◌, refl, sym, ap, ◌∙◌, subst, ◌↔◌, ◌⊎◌, inl, inr, true, false, ltb, ◌==◌, if_cases,
  if_keeps, List, [], ◌∷◌, ◌++◌, length, Occurs, Occurs-snoc, Distinct, Distinct-snoc,
  if◌then◌else◌, Option, none, some, arith,
}
use fork_llama_swap.ByteCache.{
  Bytes, Error, Cache, put, evict_oldest, is_some, forget, add, get, remove_order,
}
use fork_llama_swap.ByteCache.Books.{
  total, Books, IsWellFormed, total-put, dropped, same_or_other, evict_oldest-Books,
  evict_oldest-room, forget-Books,
}

total-append :
    (items : ℕ → Option Bytes) (xs ys : List ℕ)
    → total items (xs ++ ys) ≡ total items xs + total items ys
total-append items [] ys = omega arith
total-append items (x ∷ xs) ys = omega (arith, total-append items xs ys)

stored-IsWellFormed :
    (c : Cache) (id : ℕ) (bytes : Bytes)
    → Books id c c.order
    → c.size + length bytes ≤ c.max_size
    → IsWellFormed (record c {
      items = put c.items id (some bytes);
      order = c.order ++ id ∷ [];
      size = c.size + length bytes;
    })
stored-IsWellFormed c id bytes b h = record {
  distinct = Distinct-snoc c.order id b.absent b.distinct;
  known = λ k. stored_known k (same_or_other k id) (b.known k);
  sized = ground (
    arith,
    b.sized,
    total-append (put c.items id (some bytes)) c.order (id ∷ []),
    total-put c.items id (some bytes) c.order b.absent,
  );
  bounded = h;
}
  where
    stored_known :
        (k : ℕ)
        → (k ≡ id) ⊎ ((k ≡ id → ⊥) × ((k == id) ≡ false))
        → (k ≡ id) ⊎ (Occurs k c.order ↔ (is_some (c.items k) ≡ true))
        → Occurs k (c.order ++ id ∷ []) ↔ (is_some (put c.items id (some bytes) k) ≡ true)
    stored_known k (inl e) f = (λ o. ground (arith, e), λ h. (Occurs-snoc c.order id k).1 (inr e))
    stored_known k (inr m) (inl e) = absurd (m.0 e)
    stored_known k (inr m) (inr f) = (
      λ o. elim ((Occurs-snoc c.order id k).0 o) [
        | inl r ↦ ground (arith, m.1, f.0 r)
        | inr e ↦ absurd (m.0 e)
      ],
      λ h. (Occurs-snoc c.order id k).1 (inl (f.1 (ground (arith, m.1, h)))),
    )

forget-max_size : (c : Cache) (id : ℕ) → (forget c id).max_size ≡ c.max_size
unfolding forget
forget-max_size c id =
    if_keeps (λ (r : Cache). r.max_size ≡ c.max_size) (is_some (c.items id)) _ _ refl refl

-- A well-formed cache stays well-formed when bytes are added: no id stands twice in the order, which has
-- exactly the ids with an entry, the size is the sum of the entries, and at most the maximum.
pub add-IsWellFormed :
    (c : Cache) (id : ℕ) (bytes : Bytes) → IsWellFormed c → IsWellFormed (add c id bytes).1
unfolding add
add-IsWellFormed c id bytes w =
    if_cases (λ (r : Option Error × Cache). IsWellFormed r.1) (ltb c.max_size (length bytes)) _ _
      (λ t. w)
      (λ f.
        stored-IsWellFormed (evict_oldest (length bytes) c1 c1.order) id bytes
          (evict_oldest-Books id (length bytes) c1 c1.order b)
          (omega (arith, (room f).0, (room f).1)))
  where
    c1 : Cache
    c1 = forget c id

    b : Books id c1 c1.order
    b = forget-Books c id w

    room :
        ltb c.max_size (length bytes) ≡ false
        → ((evict_oldest (length bytes) c1 c1.order).max_size ≡ c1.max_size)
          × ((evict_oldest (length bytes) c1 c1.order).size + length bytes ≤ c1.max_size)
    room f =
        evict_oldest-room (length bytes) c1 c1.order b.sized b.distinct
          (ground (arith, forget-max_size c id))

evict_oldest-items :
    (needed : ℕ) (c : Cache) (order : List ℕ) (k : ℕ)
    → ((evict_oldest needed c order).items k ≡ c.items k)
      ⊎ ((evict_oldest needed c order).items k ≡ none)
unfolding evict_oldest
evict_oldest-items needed c [] k = inl refl
evict_oldest-items needed c (oldest ∷ order) k =
    if_keeps (λ (r : Cache). (r.items k ≡ c.items k) ⊎ (r.items k ≡ none))
      (ltb c.max_size (c.size + needed)) _ _
      (ground (arith, evict_oldest-items needed (dropped c oldest) order k)) (inl refl)

-- What the eviction drops, in front of what it keeps.
abbrev Drops : Cache → List ℕ → ℕ → Cache → Type 0
Drops c order k r =
    (gone : List ℕ) × (order ≡ gone ++ r.order)
    × ((Occurs k gone × (r.items k ≡ none)) ⊎ ((Occurs k gone → ⊥) × (r.items k ≡ c.items k)))

evict_oldest-Drops :
    (needed : ℕ) (c : Cache) (order : List ℕ) (k : ℕ)
    → Drops c order k (evict_oldest needed c order)
unfolding evict_oldest
evict_oldest-Drops needed c [] k = ([], refl, inr (λ o. o, refl))
evict_oldest-Drops needed c (oldest ∷ order) k =
    if_keeps (Drops c (oldest ∷ order) k) (ltb c.max_size (c.size + needed)) _ _
      (drop_one (evict_oldest-Drops needed (dropped c oldest) order k))
      ([], refl, inr (λ o. o, refl))
  where
    r : Cache
    r = evict_oldest needed (dropped c oldest) order

    drop_one : Drops (dropped c oldest) order k r → Drops c (oldest ∷ order) k r
    drop_one more = (
      oldest ∷ more.0,
      ap (λ l. oldest ∷ l) more.1,
      elim (same_or_other k oldest) [
        | inl e ↦ inl (
          inl e,
          elim (evict_oldest-items needed (dropped c oldest) order k) [
            | inl q ↦ q ∙ ground (arith, e)
            | inr q ↦ q
          ],
        )
        | inr n ↦ elim more.2 [
          | inl q ↦ inl (inr q.0, q.1)
          | inr q ↦ inr (
            λ o. elim o [ inl e ↦ n.0 e | inr h ↦ q.0 h ],
            q.1 ∙ ground (arith, same_or_other oldest k, n),
          )
        ]
      ],
    )

-- The ids but one, in their order.
abbrev pub without : ℕ → List ℕ → List ℕ
without id [] = []
without id (v ∷ order) = let rest = without id order in if v == id then rest else v ∷ rest

without-absent : (id : ℕ) (order : List ℕ) → (Occurs id order → ⊥) → without id order ≡ order
without-absent id [] n = refl
without-absent id (v ∷ order) n =
    if_cases (λ l. l ≡ v ∷ order) (v == id) _ _ (λ t. absurd (n (inl (ground (arith, t)))))
      (λ f. ap (λ l. v ∷ l) (without-absent id order (λ o. n (inr o))))

remove_order-without :
    (id : ℕ) (order : List ℕ) → Distinct order → remove_order id order ≡ without id order
unfolding remove_order
remove_order-without id [] d = refl
remove_order-without id (v ∷ order) d =
    if_cases (λ l. (if v == id then order else v ∷ remove_order id order) ≡ l) (v == id) _ _
      (λ t. rw t (
        sym
          (without-absent id order (λ o. d.0 (subst (λ j. Occurs j order) (ground (arith, t)) o)))))
      (λ f. rw f (ap (λ l. v ∷ l) (remove_order-without id order d.1)))

forget-order : (c : Cache) (id : ℕ) → IsWellFormed c → (forget c id).order ≡ without id c.order
unfolding forget
forget-order c id w =
    if_cases (λ (r : Cache). r.order ≡ without id c.order) (is_some (c.items id)) _ _
      (λ t. remove_order-without id c.order w.distinct)
      (λ f. sym (without-absent id c.order (λ o. ground (arith, f, (w.known id).0 o))))

forget-items : (c : Cache) (id k : ℕ) → (forget c id).items k ≡ c.items k
unfolding forget
forget-items c id k =
    if_keeps (λ (r : Cache). r.items k ≡ c.items k) (is_some (c.items id)) _ _ refl refl

-- The cache after bytes that are not refused.
abbrev stored : Cache → ℕ → Bytes → Cache
stored c id bytes =
    let c1 = forget c id in
    let c2 = evict_oldest (length bytes) c1 c1.order in
    record c2 {
      items = put c2.items id (some bytes);
      order = c2.order ++ id ∷ [];
      size = c2.size + length bytes;
    }

add-stored :
    (c : Cache) (id : ℕ) (bytes : Bytes)
    → length bytes ≤ c.max_size
    → add c id bytes ≡ (none, stored c id bytes)
unfolding add
add-stored c id bytes h =
    if_cases (λ (r : Option Error × Cache). r ≡ (none, stored c id bytes))
      (ltb c.max_size (length bytes)) _ _ (λ t. absurd (ground arith)) (λ f. refl)

got : (c : Cache) (id : ℕ) (bytes : Bytes) → c.items id ≡ some bytes → get c id ≡ (none, bytes)
unfolding get
got c id bytes h = rw (h, get) refl

put_same : (items : ℕ → Option Bytes) (id : ℕ) (v : Option Bytes) → put items id v id ≡ v
put_same items id v = ground arith

-- Bytes within the maximum are stored without an error and are got again.
pub get-add :
    (c : Cache) (id : ℕ) (bytes : Bytes)
    → length bytes ≤ c.max_size
    → ((add c id bytes).0 ≡ none) × (get (add c id bytes).1 id ≡ (none, bytes))
get-add c id bytes h =
    subst (λ (r : Option Error × Cache). (r.0 ≡ none) × (get r.1 id ≡ (none, bytes)))
      (sym (add-stored c id bytes h))
      (
        refl,
        got (stored c id bytes) id bytes (
            put_same (evict_oldest (length bytes) (forget c id) (forget c id).order).items id
              (some bytes)),
      )

-- The entries that an addition drops are those of the oldest ids but the one that is added.
abbrev pub DropsOldest : Cache → ℕ → ℕ → Cache → Type 0
DropsOldest c id k r =
    (gone : List ℕ) × (kept : List ℕ) × (without id c.order ≡ gone ++ kept)
    × (r.order ≡ kept ++ id ∷ [])
    × ((Occurs k gone × (r.items k ≡ none)) ⊎ ((Occurs k gone → ⊥) × (r.items k ≡ c.items k)))

stored-DropsOldest :
    (c : Cache) (id : ℕ) (bytes : Bytes) (k : ℕ)
    → IsWellFormed c
    → (k ≡ id → ⊥)
    → DropsOldest c id k (stored c id bytes)
stored-DropsOldest c id bytes k w n =
    let h = evict_oldest-Drops (length bytes) (forget c id) (forget c id).order k in
    (
      h.0,
      (evict_oldest (length bytes) (forget c id) (forget c id).order).order,
      sym (forget-order c id w) ∙ h.1,
      refl,
      elim h.2 [
        | inl q ↦ inl (q.0, other ∙ q.1)
        | inr q ↦ inr (q.0, other ∙ q.1 ∙ forget-items c id k)
      ],
    )
  where
    other :
        (stored c id bytes).items k
        ≡ (evict_oldest (length bytes) (forget c id) (forget c id).order).items k
    other = ground (arith, n, same_or_other k id, same_or_other id k)

-- When bytes within the maximum are added to a well-formed cache, they are stored without an error
-- and are got again, and the other ids in their order are split in two: the entries of the older
-- ones are dropped, those of the others are what they were, and these ids stay in the order, with
-- the new one behind them.
pub add_stores :
    (c : Cache) (id : ℕ) (bytes : Bytes) (k : ℕ)
    → IsWellFormed c
    → length bytes ≤ c.max_size
    → (k ≡ id → ⊥)
    → ((add c id bytes).0 ≡ none)
      × (get (add c id bytes).1 id ≡ (none, bytes))
      × DropsOldest c id k (add c id bytes).1
add_stores c id bytes k w h n = (
  (get-add c id bytes h).0,
  (get-add c id bytes h).1,
  subst (λ (r : Option Error × Cache). DropsOldest c id k r.1) (sym (add-stored c id bytes h))
      (stored-DropsOldest c id bytes k w n),
)
