-- ===== src/Ring/Last.antt =====
-- internal/ring/buffer.go: the entries are the last that were pushed, in their order.
use native.Mathlib.Nat.{mod-eq_of_lt, mod-eq-sub-mod, mod-add-mod, mod-lt, add-mod_right}
use fork_llama_swap.Base.{
  ℕ, zero, suc, ◌+◌, ◌-◌, ◌%◌, ◌≤◌, ◌<◌, ◌≡◌, refl, sym, ap, ◌∙◌, subst, ◌⊎◌, inl, inr, false, ltb,
  ◌==◌, if◌then◌else◌, if_cases, List, [], ◌∷◌, ◌++◌, arith,
}
use fork_llama_swap.Ring.{Buffer, write, push, slice_from, slice}

pub record IsWellFormed {A : Type 0} (r : Buffer A) : Type 0 where
  pub room : 0 < r.cap
  pub head_within : r.head < r.cap
  pub size_within : r.size ≤ r.cap

-- The slot of an entry: the sum, less the capacity if it reaches it.
slot :
    (h c i : ℕ)
    → h < c
    → i ≤ c
    → (((h + i) % c ≡ h + i) × (h + i < c)) ⊎ (((h + i) % c ≡ h + i - c) × (c ≤ h + i))
slot h c i a b = elim (below (h + i) c) [
  | inl l ↦ inl (mod-eq_of_lt l, l)
  | inr l ↦ inr (mod-eq-sub-mod l ∙ mod-eq_of_lt (omega (arith, l)), l)
]
  where
    below : (n m : ℕ) → (n < m) ⊎ (m ≤ n)
    below n m = ground arith

-- Two entries stand at different slots.
apart : (h c i j : ℕ) → h < c → i < j → j < c → (((h + i) % c) == ((h + j) % c)) ≡ false
apart h c i j a l b = ground (arith, slot h c i a (omega arith), slot h c j a (omega arith))

-- So do an entry but the first, and the slot after the last.
apart_from_end : (h c i : ℕ) → h < c → 0 < i → i < c → (((h + i) % c) == ((h + c) % c)) ≡ false
apart_from_end h c i a l b = ground (arith, slot h c i a (omega arith), slot h c c a (omega arith))

round_trip : (h c : ℕ) → h < c → (h + c) % c ≡ h
round_trip h c l = add-mod_right h c ∙ mod-eq_of_lt l

module _ {A : Type 0} where
  -- The entries at the slots of `h` on.
  abbrev entries : (ℕ → A) → ℕ → ℕ → ℕ → ℕ → List A
  entries buf h c i zero = []
  entries buf h c i (suc n) = buf ((h + i) % c) ∷ entries buf h c (i + 1) n

  slice_from-entries : (r : Buffer A) (i n : ℕ) → slice_from r i n ≡ entries r.buf r.head r.cap i n
  unfolding slice_from
  slice_from-entries r i zero = refl
  slice_from-entries r i (suc n) =
      ap (λ l. r.buf ((r.head + i) % r.cap) ∷ l) (slice_from-entries r (i + 1) n)

  written : (buf : ℕ → A) (k : ℕ) (v : A) (j : ℕ) → (j == k) ≡ false → write buf k v j ≡ buf j
  written buf k v j h = ground arith

  written_there : (buf : ℕ → A) (k : ℕ) (v : A) → write buf k v k ≡ v
  written_there buf k v = ground arith

  entries-write :
      (buf : ℕ → A) (h c i n k : ℕ) (v : A)
      → ((j : ℕ) → i ≤ j → j < i + n → (((h + j) % c) == k) ≡ false)
      → entries (write buf k v) h c i n ≡ entries buf h c i n
  entries-write buf h c i zero k v f = refl
  entries-write buf h c i (suc n) k v f =
      ap (λ x. x ∷ entries (write buf k v) h c (i + 1) n)
        (written buf k v ((h + i) % c) (f i (omega arith) (omega arith)))
      ∙ ap (λ l. buf ((h + i) % c) ∷ l)
          (entries-write buf h c (i + 1) n k v (λ j a b. f j (omega arith) (omega arith)))

  entries-snoc :
      (buf : ℕ → A) (h c i n : ℕ)
      → entries buf h c i (suc n) ≡ entries buf h c i n ++ buf ((h + (i + n)) % c) ∷ []
  entries-snoc buf h c i zero = ap (λ j. buf ((h + j) % c) ∷ []) (omega arith)
  entries-snoc buf h c i (suc n) =
      ap (λ l. buf ((h + i) % c) ∷ l)
        (entries-snoc buf h c (i + 1) n
          ∙ ap (λ j. entries buf h c (i + 1) n ++ buf ((h + j) % c) ∷ []) (omega arith))

  entries-shift :
      (buf : ℕ → A) (h c i n : ℕ) → entries buf ((h + 1) % c) c i n ≡ entries buf h c (i + 1) n
  entries-shift buf h c i zero = refl
  entries-shift buf h c i (suc n) =
      ap (λ j. buf j ∷ entries buf ((h + 1) % c) c (i + 1) n)
        (mod-add-mod (h + 1) c i ∙ ap (λ j. j % c) (omega arith))
      ∙ ap (λ l. buf ((h + (i + 1)) % c) ∷ l) (entries-shift buf h c (i + 1) n)

  -- Once the buffer is full the oldest entry goes.
  abbrev pub drop_first : List A → List A
  drop_first [] = []
  drop_first (x ∷ xs) = xs

  entries_end :
      (buf : ℕ → A) (h c n : ℕ)
      → entries buf h c 0 (suc n) ≡ entries buf h c 0 n ++ buf ((h + n) % c) ∷ []
  entries_end buf h c n =
      entries-snoc buf h c 0 n
      ∙ ap (λ j. entries buf h c 0 n ++ buf ((h + j) % c) ∷ []) (omega arith)

  not_full :
      (r : Buffer A) (v : A)
      → IsWellFormed r
      → r.size < r.cap
      → entries (write r.buf ((r.head + r.size) % r.cap) v) r.head r.cap 0 (suc r.size)
        ≡ entries r.buf r.head r.cap 0 r.size ++ v ∷ []
  not_full r v w l =
      entries_end (write r.buf ((r.head + r.size) % r.cap) v) r.head r.cap r.size
      ∙ ap
          (λ x. entries (write r.buf ((r.head + r.size) % r.cap) v) r.head r.cap 0 r.size ++ x ∷ [])
          (written_there r.buf ((r.head + r.size) % r.cap) v)
      ∙ ap (λ l. l ++ v ∷ [])
          (entries-write r.buf r.head r.cap 0 r.size ((r.head + r.size) % r.cap) v
            (λ j a b. apart r.head r.cap j r.size w.head_within (omega (arith, b)) l))

  full :
      (buf : ℕ → A) (h c m : ℕ) (v : A)
      → h < c
      → c ≡ suc m
      → entries (write buf h v) ((h + 1) % c) c 0 (suc m)
        ≡ drop_first (entries buf h c 0 (suc m)) ++ v ∷ []
  full buf h c m v l e =
      entries_end (write buf h v) ((h + 1) % c) c m
      ∙ ap (λ x. entries (write buf h v) ((h + 1) % c) c 0 m ++ x ∷ [])
          (ap (write buf h v)
              (mod-add-mod (h + 1) c m ∙ ap (λ j. j % c) (omega (arith, e)) ∙ round_trip h c l)
            ∙ written_there buf h v)
      ∙ ap (λ l. l ++ v ∷ [])
          (entries-shift (write buf h v) h c 0 m
            ∙ entries-write buf h c 1 m h v (λ j a b.
              subst (λ k. (((h + j) % c) == k) ≡ false) (round_trip h c l)
                (apart_from_end h c j l (omega (arith, a)) (omega (arith, b, e)))))

  push_open :
      (r : Buffer A) (v : A)
      → r.size < r.cap
      → push r v ≡ record r { buf = write r.buf ((r.head + r.size) % r.cap) v; size = r.size + 1 }
  unfolding push
  push_open r v l =
      if_cases
        (λ b. b ≡ record r { buf = write r.buf ((r.head + r.size) % r.cap) v; size = r.size + 1 })
        (ltb r.size r.cap) _ _ (λ t. refl) (λ f. absurd (ground arith))

  push_full :
      (r : Buffer A) (v : A)
      → r.cap ≤ r.size
      → push r v ≡ record r { buf = write r.buf r.head v; head = (r.head + 1) % r.cap }
  unfolding push
  push_full r v l =
      if_cases (λ b. b ≡ record r { buf = write r.buf r.head v; head = (r.head + 1) % r.cap })
        (ltb r.size r.cap) _ _ (λ t. absurd (ground arith)) (λ f. refl)

  slice-entries : (r : Buffer A) → slice r ≡ entries r.buf r.head r.cap 0 r.size
  unfolding slice
  slice-entries r = slice_from-entries r 0 r.size

  slice-push_open :
      (r : Buffer A) (v : A)
      → IsWellFormed r
      → r.size < r.cap
      → slice (push r v) ≡ slice r ++ v ∷ []
  slice-push_open r v w l =
      ap slice (push_open r v l)
      ∙ slice-entries
          (record r { buf = write r.buf ((r.head + r.size) % r.cap) v; size = r.size + 1 })
      ∙ ap (entries (write r.buf ((r.head + r.size) % r.cap) v) r.head r.cap 0) {y = suc r.size}
          (omega arith)
      ∙ not_full r v w l
      ∙ ap (λ l. l ++ v ∷ []) (sym (slice-entries r))

  slice-push_full :
      (r : Buffer A) (v : A)
      → IsWellFormed r
      → r.cap ≤ r.size
      → slice (push r v) ≡ drop_first (slice r) ++ v ∷ []
  slice-push_full r v w l =
      ap slice (push_full r v l)
      ∙ slice-entries (record r { buf = write r.buf r.head v; head = (r.head + 1) % r.cap })
      ∙ ap (entries (write r.buf r.head v) ((r.head + 1) % r.cap) r.cap 0) size_suc
      ∙ full r.buf r.head r.cap (r.cap - 1) v w.head_within (omega (arith, w.room))
      ∙ ap (λ n. drop_first (entries r.buf r.head r.cap 0 n) ++ v ∷ []) (sym size_suc)
      ∙ ap (λ l. drop_first l ++ v ∷ []) (sym (slice-entries r))
    where
      size_suc : r.size ≡ suc (r.cap - 1)
      size_suc = omega (arith, l, w.room, w.size_within)

  -- In a well-formed buffer, a pushed entry becomes the last of the entries; of a full buffer the first entry goes.
  pub slice-push :
      (r : Buffer A) (v : A)
      → IsWellFormed r
      → slice (push r v)
        ≡ (if ltb r.size r.cap then slice r ++ v ∷ [] else drop_first (slice r) ++ v ∷ [])
  slice-push r v w =
      if_cases (λ l. slice (push r v) ≡ l) (ltb r.size r.cap) _ _
        (λ t. slice-push_open r v w (ground arith)) (λ f. slice-push_full r v w (ground arith))

  -- A well-formed buffer stays so when an entry is pushed.
  pub push-IsWellFormed : (r : Buffer A) (v : A) → IsWellFormed r → IsWellFormed (push r v)
  unfolding push
  push-IsWellFormed r v w =
      if_cases IsWellFormed (ltb r.size r.cap) _ _
        (λ t. record { room = w.room; head_within = w.head_within; size_within = ground arith })
        (λ f. record {
          room = w.room;
          head_within = mod-lt (r.head + 1) w.room;
          size_within = w.size_within;
        })

  -- In a well-formed buffer, a pushed entry becomes the last of the entries; of a full buffer the first
  -- entry goes. The buffer stays well-formed.
  pub push_keeps_last :
      (r : Buffer A) (v : A)
      → IsWellFormed r
      → (slice (push r v)
          ≡ (if ltb r.size r.cap then slice r ++ v ∷ [] else drop_first (slice r) ++ v ∷ []))
        × IsWellFormed (push r v)
  push_keeps_last r v w = (slice-push r v w, push-IsWellFormed r v w)
