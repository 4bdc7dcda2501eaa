-- ===== src/Matrix.antt =====
-- internal/matrix/program.go: the evaluator of compiled set expressions, which projects the
-- combinations of models that an expression stands for on the models that a query is about.
pub mod Costs
pub mod Support
pub mod Combos
pub mod Frontier
pub mod Exact
pub mod Program
pub mod Bits
pub mod Optimal
pub mod Solve
pub mod Contain
pub mod Planner
pub mod Compile
use fork_llama_swap.Base.{
  ℕ, zero, suc, ◌+◌, ◌*◌, ◌/◌, String, Bool, true, false, ◌||◌, ◌==◌, ◌=ₛ◌, if◌then◌else◌, List, [],
  ◌∷◌, ◌++◌, length, Option, none, some,
}
use fork_llama_swap.Scheduler.Collision.{contains_string, sort_strings}

-- A node of a compiled expression. A reference has the node that it is linked to, so that the graph
-- of the nodes, which has no cycle, is unfolded to a tree.
mutual
  pub data Node : Type 0 where
    leaf : String → Node
    ref : String → Node → Node
    all_of : Nodes → Node
    any_of : Nodes → Node
    empty : Node

  pub data Nodes : Type 0 where
    none_left : Nodes
    child : Node → Nodes → Nodes

-- The bits of a []uint64 by their numbers. A mask of an evaluator has as many words as the evaluator.
abbrev pub BitMask : Type 0
BitMask = ℕ → Bool

abbrev pub no_bits : BitMask
no_bits b = false

-- mask[bit/64] |= uint64(1) << uint(bit%64).
abbrev pub set_bit : ℕ → BitMask → BitMask
set_bit i m b = if b == i then true else m b

-- unionMask.
abbrev pub union_mask : BitMask → BitMask → BitMask
union_mask left right b = left b || right b

-- subsetOf, over the bits of all words.
unfoldable pub subset_of : ℕ → BitMask → BitMask → Bool
subset_of zero m other = true
subset_of (suc b) m other =
    if m b then (if other b then subset_of b m other else false) else subset_of b m other

-- A nil pointer is `nothing`.
pub data Witness : Type 0 where
  nothing : Witness
  model : String → Witness
  pair : Witness → Witness → Witness

pub record ProjectedState : Type 0 where
  pub mask : BitMask
  pub witness : Witness

-- evaluator: the relevant models, of which each has its place as its bit. The memo is left out: a
-- node has the same states whenever it is evaluated.
pub record Evaluator : Type 0 where
  pub model_bits : List String
  pub words : ℕ

unfoldable pub register : List String → List String → List String
register bits [] = bits
register bits (m ∷ ms) = register (if contains_string bits m then bits else bits ++ m ∷ []) ms

-- A lookup in modelBits, where the first of `bits` has the bit `i`.
unfoldable pub bit_from : ℕ → List String → String → Option ℕ
bit_from i [] m = none
bit_from i (x ∷ bits) m = if x =ₛ m then some i else bit_from (suc i) bits m

abbrev pub bit_of : List String → String → Option ℕ
bit_of bits m = bit_from 0 bits m

unfoldable pub new_evaluator : List String → Evaluator
unfolding register
new_evaluator relevant =
    let bits = register [] relevant in record { model_bits = bits; words = (length bits + 63) / 64 }

unfoldable pub first_bits : ℕ → BitMask
first_bits zero = no_bits
first_bits (suc n) = set_bit n (first_bits n)

-- fullMask: the first bits.
unfoldable pub full_mask : Evaluator → BitMask
unfolding first_bits
full_mask e = first_bits (length e.model_bits)

unfoldable pub mask_of_bit : Option ℕ → BitMask
mask_of_bit none = no_bits
mask_of_bit (some i) = set_bit i no_bits

module _ (e : Evaluator) where
  -- The test of whether a state is already covered.
  unfoldable pub is_covered : ProjectedState → List ProjectedState → Bool
  unfolding subset_of
  is_covered candidate [] = false
  is_covered candidate (state ∷ states) =
      if subset_of (64 * e.words) candidate.mask state.mask
      then true
      else is_covered candidate states

  -- The states that the candidate does not cover.
  unfoldable pub keep_others : ProjectedState → List ProjectedState → List ProjectedState
  unfolding subset_of
  keep_others candidate [] = []
  keep_others candidate (state ∷ states) =
      let kept = keep_others candidate states in
      if subset_of (64 * e.words) state.mask candidate.mask then kept else state ∷ kept

  unfoldable pub add_to_frontier : List ProjectedState → ProjectedState → List ProjectedState
  unfolding is_covered keep_others
  add_to_frontier states candidate =
      if is_covered candidate states then states else keep_others candidate states ++ candidate ∷ []

  unfoldable pub add_states : List ProjectedState → List ProjectedState → List ProjectedState
  unfolding add_to_frontier
  add_states states [] = states
  add_states states (c ∷ more) = add_states (add_to_frontier states c) more

  abbrev pub joined : ProjectedState → ProjectedState → ProjectedState
  joined left right = record {
    mask = union_mask left.mask right.mask;
    witness = pair left.witness right.witness;
  }

  unfoldable pub combine_one :
      List ProjectedState → ProjectedState → List ProjectedState → List ProjectedState
  unfolding add_to_frontier
  combine_one combined left [] = combined
  combine_one combined left (right ∷ rights) =
      combine_one (add_to_frontier combined (joined left right)) left rights

  unfoldable pub combine :
      List ProjectedState → List ProjectedState → List ProjectedState → List ProjectedState
  unfolding combine_one
  combine combined [] rights = combined
  combine combined (left ∷ lefts) rights = combine (combine_one combined left rights) lefts rights

  unfoldable mutual
    unfolding add_states combine mask_of_bit

    pub evaluate : Node → List ProjectedState
    evaluate empty = []
    evaluate (leaf m) =
        record { mask = mask_of_bit (bit_of e.model_bits m); witness = model m } ∷ []
    evaluate (ref name target) = evaluate target
    evaluate (any_of children) = evaluate_any [] children
    evaluate (all_of children) =
        evaluate_all (record { mask = no_bits; witness = nothing } ∷ []) children

    -- The loop over the children of an alternative.
    pub evaluate_any : List ProjectedState → Nodes → List ProjectedState
    evaluate_any states none_left = states
    evaluate_any states (child n children) = evaluate_any (add_states states (evaluate n)) children

    -- The loop over the children of a conjunction.
    pub evaluate_all : List ProjectedState → Nodes → List ProjectedState
    evaluate_all states none_left = states
    evaluate_all states (child n children) = evaluate_all (combine [] states (evaluate n)) children
