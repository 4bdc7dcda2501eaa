-- ===== src/Matrix/Program.antt =====
-- internal/matrix/program.go: the compiled program, and Solve, which looks for the combination with the
-- target that evicts the cheapest running models.
use fork_llama_swap.Base.{
  ℕ, ◌+◌, ◌*◌, ◌/◌, ◌%◌, ◌^◌, String, Bool, true, false, ◌||◌, leb, ltb, ◌=ₛ◌, if◌then◌else◌, List,
  [], ◌∷◌, ◌++◌, length, Option, none, some,
}
use fork_llama_swap.Scheduler.Collision.{contains_string, sort_strings}
use fork_llama_swap.Matrix.{
  Node, leaf, ref, all_of, any_of, empty, Nodes, none_left, child, BitMask, bit_of, register,
  Witness, nothing, model, pair, ProjectedState, Evaluator, new_evaluator, evaluate, mask_of_bit,
  subset_of, full_mask,
}

-- compiledSet.
pub record CompiledSet : Type 0 where
  pub name : String
  pub dsl : String
  pub root : Node
  pub support : BitMask

-- Program, less what it reports of orphans.
pub record Program : Type 0 where
  pub sets : List CompiledSet
  pub known : List String
  pub words : ℕ

-- The closure `collect`: the models that a node can mention.
unfoldable mutual
  pub collect : Node → List String
  collect empty = []
  collect (leaf m) = m ∷ []
  collect (ref name target) = collect target
  collect (all_of children) = collect_all children
  collect (any_of children) = collect_all children

  pub collect_all : Nodes → List String
  collect_all none_left = []
  collect_all (child n children) = collect n ++ collect_all children

unfoldable pub register_sets : List String → List CompiledSet → List String
unfolding collect register
register_sets bits [] = bits
register_sets bits (s ∷ sets) = register_sets (register bits (collect s.root)) sets

unfoldable pub support_of : List String → List String → BitMask
unfolding mask_of_bit
support_of bits [] b = false
support_of bits (m ∷ ms) b = mask_of_bit (bit_of bits m) b || support_of bits ms b

unfoldable pub with_support : List String → List CompiledSet → List CompiledSet
unfolding support_of collect
with_support bits [] = []
with_support bits (s ∷ sets) =
    record s { support = support_of bits (collect s.root) } ∷ with_support bits sets

-- computeSupport. The order in which a map yields the models numbers them; any order will do.
unfoldable pub compute_support : List CompiledSet → Program
unfolding register_sets with_support
compute_support sets =
    let bits = register_sets [] sets in
    record { sets = with_support bits sets; known = bits; words = (length bits + 63) / 64 }

unfoldable pub has_support : List String → CompiledSet → String → Bool
has_support known s m = elim (bit_of known m) [ none ↦ false | some bit ↦ s.support bit ]

-- supportsAll.
unfoldable pub supports_all : List String → CompiledSet → List String → Bool
unfolding has_support
supports_all known s [] = true
supports_all known s (m ∷ ms) = if has_support known s m then supports_all known s ms else false

-- evictionCost.
unfoldable pub eviction_cost : (String → Option ℕ) → String → ℕ
eviction_cost costs m = elim (costs m) [ none ↦ 1 | some c ↦ c ]

-- state.mask.has(evaluator.modelBits[m]), where a model that is not registered reads the bit 0.
unfoldable pub has_model : Evaluator → ProjectedState → String → Bool
has_model e st m = elim (bit_of e.model_bits m) [ none ↦ st.mask 0 | some bit ↦ st.mask bit ]

-- The cost of the running models that the state lacks. An int has 64 bits, and wraps: it stands here as
-- the number modulo 2 ^ 64, from 2 ^ 63 on a negative one.
unfoldable pub state_cost : (String → Option ℕ) → Evaluator → ProjectedState → List String → ℕ
unfolding eviction_cost has_model
state_cost costs e st [] = 0
state_cost costs e st (m ∷ running) =
    if has_model e st m
    then state_cost costs e st running
    else (eviction_cost costs m + state_cost costs e st running) % 2 ^ 64

unfoldable pub missing : Evaluator → ProjectedState → List String → List String
unfolding has_model
missing e st [] = []
missing e st (m ∷ running) =
    if has_model e st m then missing e st running else m ∷ missing e st running

abbrev pub is_negative : ℕ → Bool
is_negative c = leb (2 ^ 63) c

-- The order of such numbers as ints.
abbrev pub less_int : ℕ → ℕ → Bool
less_int a b = ltb ((a + 2 ^ 63) % 2 ^ 64) ((b + 2 ^ 63) % 2 ^ 64)

-- bestCost, bestSet and bestState, if there are any; before, bestCost is -1.
pub record Choice : Type 0 where
  pub cost : ℕ
  pub set : CompiledSet
  pub state : ProjectedState

pub record Decision : Type 0 where
  pub evict : List String
  pub target_set : List String
  pub set_name : String
  pub dsl : String
  pub total_cost : ℕ

-- The closure `visit` of flattenWitness: the models that are seen for the first time.
unfoldable pub visit : List String → Witness → List String
visit models nothing = models
visit models (model m) =
    if m =ₛ "" then models else if contains_string models m then models else models ++ m ∷ []
visit models (pair left right) = visit (visit models left) right

unfoldable pub flatten_witness : Witness → List String
unfolding visit
flatten_witness w = sort_strings (visit [] w)

module _ (costs : String → Option ℕ) (e : Evaluator) (target : String) (running : List String) where
  abbrev pub better : ℕ → Option Choice → Bool
  better cost none = true
  better cost (some best) = is_negative best.cost || less_int cost best.cost

  unfoldable pub try_state : CompiledSet → Option Choice → ProjectedState → Option Choice
  unfolding has_model state_cost
  try_state s best st =
      let cost = state_cost costs e st running in
      if has_model e st target
      then if better cost best then some (record { cost = cost; set = s; state = st }) else best
      else best

  unfoldable pub try_states : CompiledSet → Option Choice → List ProjectedState → Option Choice
  unfolding try_state
  try_states s best [] = best
  try_states s best (st ∷ states) = try_states s (try_state s best st) states

  unfoldable pub try_sets : List String → Option Choice → List CompiledSet → Option Choice
  unfolding try_states has_support evaluate
  try_sets known best [] = best
  try_sets known best (s ∷ sets) =
      try_sets known
        (if has_support known s target then try_states s best (evaluate e s.root) else best) sets

unfoldable pub covers_all : Evaluator → List ProjectedState → Bool
unfolding subset_of full_mask
covers_all e [] = false
covers_all e (st ∷ states) =
    if subset_of (64 * e.words) (full_mask e) st.mask then true else covers_all e states

-- The loop of findContaining.
unfoldable pub find_containing_in :
    List String → Evaluator → List String → List CompiledSet → String × String
unfolding supports_all covers_all evaluate
find_containing_in known e models [] = ("", "")
find_containing_in known e models (s ∷ sets) =
    let later = find_containing_in known e models sets in
    if supports_all known s models
    then if covers_all e (evaluate e s.root) then (s.name, s.dsl) else later
    else later

unfoldable pub find_containing : Program → List String → String × String
unfolding find_containing_in new_evaluator
find_containing p [] = ("", "")
find_containing p (m ∷ models) =
    find_containing_in p.known (new_evaluator (m ∷ models)) (m ∷ models) p.sets

-- The loop of CanContainAll.
unfoldable pub can_contain_in : List String → Evaluator → List String → List CompiledSet → Bool
unfolding supports_all covers_all evaluate
can_contain_in known e models [] = false
can_contain_in known e models (s ∷ sets) =
    let later = can_contain_in known e models sets in
    if supports_all known s models
    then if covers_all e (evaluate e s.root) then true else later
    else later

unfoldable pub can_contain_all : Program → List String → Bool
unfolding can_contain_in new_evaluator
can_contain_all p [] = true
can_contain_all p (m ∷ models) =
    can_contain_in p.known (new_evaluator (m ∷ models)) (m ∷ models) p.sets

unfoldable pub decision_of : Evaluator → String → List String → Option Choice → Decision
unfolding missing flatten_witness
decision_of e target running none = record {
  evict = running;
  target_set = target ∷ [];
  set_name = "";
  dsl = "";
  total_cost = 0;
}
decision_of e target running (some best) = record {
  evict = missing e best.state running;
  target_set = flatten_witness best.state.witness;
  set_name = best.set.name;
  dsl = best.set.dsl;
  total_cost = best.cost;
}

-- What the search of Solve chooses.
unfoldable pub choose : (String → Option ℕ) → Program → String → List String → Option Choice
unfolding new_evaluator try_sets
choose costs p target running =
    try_sets costs (new_evaluator (target ∷ running)) target running p.known none p.sets

-- Solve.
unfoldable pub solve : (String → Option ℕ) → Program → String → List String → Decision
unfolding find_containing decision_of choose new_evaluator
solve costs p target running =
    if contains_string running target
    then record {
      evict = [];
      target_set = running;
      set_name = (find_containing p running).0;
      dsl = (find_containing p running).1;
      total_cost = 0;
    }
    else decision_of (new_evaluator (target ∷ running)) target running
        (choose costs p target running)
