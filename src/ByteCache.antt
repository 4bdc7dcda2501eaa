-- ===== src/ByteCache.antt =====
-- internal/cache/cache.go: a cache of byte slices by ids, which drops its oldest entries to keep within
-- a size. An id and the maximum are not negative here. The mutex makes each call one step.
pub mod Books
pub mod Bounds
use fork_llama_swap.Base.{
  ℕ, ◌+◌, ◌-◌, Bool, true, false, ltb, ◌==◌, if◌then◌else◌, List, [], ◌∷◌, ◌++◌, length, Option,
  none, some,
}

abbrev pub Bytes : Type 0
Bytes = List ℕ

pub data Error : Type 0 where
  exceeds_max_size : Error
  not_found : Error

pub record Cache : Type 0 where
  pub items : ℕ → Option Bytes
  pub order : List ℕ
  pub size : ℕ
  pub max_size : ℕ

-- New.
abbrev pub new : ℕ → Cache
new max_bytes = record { items = λ id. none; order = []; size = 0; max_size = max_bytes }

abbrev pub put : (ℕ → Option Bytes) → ℕ → Option Bytes → ℕ → Option Bytes
put items id v k = if k == id then v else items k

-- len(items[id]), if it is there.
abbrev pub bytes_of : Option Bytes → ℕ
bytes_of none = 0
bytes_of (some data_of) = length data_of

-- removeOrder: the first place of the id is dropped.
unfoldable pub remove_order : ℕ → List ℕ → List ℕ
remove_order id [] = []
remove_order id (v ∷ order) = if v == id then order else v ∷ remove_order id order

-- The loop that evicts the oldest until there is room.
unfoldable pub evict_oldest : ℕ → Cache → List ℕ → Cache
evict_oldest needed c [] = record c { order = [] }
evict_oldest needed c (oldest ∷ order) =
    let evicted =
      evict_oldest needed
        (record c { items = put c.items oldest none; size = c.size - bytes_of (c.items oldest) })
        order in
    if ltb c.max_size (c.size + needed) then evicted else record c { order = oldest ∷ order }

abbrev pub is_some : Option Bytes → Bool
is_some none = false
is_some (some b) = true

-- Add, after the first test: an old entry of the id leaves the size and the order.
unfoldable pub forget : Cache → ℕ → Cache
unfolding remove_order
forget c id =
    if is_some (c.items id)
    then record c { size = c.size - bytes_of (c.items id); order = remove_order id c.order }
    else c

-- Add.
unfoldable pub add : Cache → ℕ → Bytes → Option Error × Cache
unfolding evict_oldest forget
add c id bytes =
    let c1 = forget c id in
    let c2 = evict_oldest (length bytes) c1 c1.order in
    if ltb c.max_size (length bytes) then (some exceeds_max_size, c) else (
      none,
      record c2 {
        items = put c2.items id (some bytes);
        order = c2.order ++ id ∷ [];
        size = c2.size + length bytes;
      },
    )

-- Get.
unfoldable pub get : Cache → ℕ → Option Error × Bytes
get c id = elim (c.items id) [ none ↦ (some not_found, []) | some bytes ↦ (none, bytes) ]

-- Has.
abbrev pub has : Cache → ℕ → Bool
has c id = is_some (c.items id)

-- Clear.
abbrev pub clear : Cache → Cache
clear c = record c { items = λ id. none; order = []; size = 0 }
