-- ===== src/Matrix/Compile/Results.antt =====
-- internal/matrix/program.go: what the results of the parts of Compile have, if these do not fail.
use fork_llama_swap.Matrix.Compile.{Result, good, bad, ◌>>=◌}

abbrev pub Given : {A : Type 0} → (A → Type 0) → Result A → Type 0
Given P (good a) = P a
Given P (bad e) = Unit

pub Given-bind :
    {A B : Type 0} (P : A → Type 0) (Q : B → Type 0) (r : Result A) (k : A → Result B)
    → Given P r
    → ((a : A) → P a → Given Q (k a))
    → Given Q (r >>= k)
Given-bind P Q (good a) k h f = f a h
Given-bind P Q (bad e) k h f = tt

pub Given-any : {A : Type 0} (r : Result A) → Given (λ a. Unit {0}) r
Given-any (good a) = tt
Given-any (bad e) = tt
