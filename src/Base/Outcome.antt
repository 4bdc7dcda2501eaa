-- ===== src/Base/Outcome.antt =====
-- Code that may panic: `none` is the panic. `Ensures P m` says that `m` returns, and with `P`.
use mathlib.Core.Option.{Option, none, some}

infixl 5 ◌>>=◌
abbrev pub ◌>>=◌ {ℓ κ} : {A : Type ℓ} {B : Type κ} → Option A → (A → Option B) → Option B
none >>= f = none
some a >>= f = f a

abbrev pub Ensures : {A : Type 0} → (A → Type 0) → Option A → Type 0
Ensures P none = ⊥
Ensures P (some a) = P a

-- The rule for a sequence: what the first part ensures is what the rest may rely on.
pub Ensures-bind :
    {A B : Type 0} (P : A → Type 0) (Q : B → Type 0) (m : Option A) (f : A → Option B)
    → Ensures P m
    → ((a : A) → P a → Ensures Q (f a))
    → Ensures Q (m >>= f)
Ensures-bind P Q none f h k = h
Ensures-bind P Q (some a) f h k = k a h

pub Ensures-mono :
    {A : Type 0} (P Q : A → Type 0) (m : Option A)
    → ((a : A) → P a → Q a)
    → Ensures P m
    → Ensures Q m
Ensures-mono P Q none k h = h
Ensures-mono P Q (some a) k h = k a h

-- If `m` returns, then with `P`.
abbrev pub Whenever : {A : Type 0} → (A → Type 0) → Option A → Type 0
Whenever P none = Unit
Whenever P (some a) = P a

pub Whenever-bind :
    {A B : Type 0} (P : A → Type 0) (Q : B → Type 0) (m : Option A) (f : A → Option B)
    → Whenever P m
    → ((a : A) → P a → Whenever Q (f a))
    → Whenever Q (m >>= f)
Whenever-bind P Q none f h k = tt
Whenever-bind P Q (some a) f h k = k a h

pub Whenever-mono :
    {A : Type 0} (P Q : A → Type 0) (m : Option A)
    → ((a : A) → P a → Q a)
    → Whenever P m
    → Whenever Q m
Whenever-mono P Q none k h = tt
Whenever-mono P Q (some a) k h = k a h

-- A total computation, and what its results have.
pub Ensures-and :
    {A : Type 0} (P Q : A → Type 0) (m : Option A)
    → Ensures P m
    → Whenever Q m
    → Ensures (λ a. P a × Q a) m
Ensures-and P Q none h k = h
Ensures-and P Q (some a) h k = (h, k)

pub Whenever-then :
    {A B : Type 0} (Q : B → Type 0) (m : Option A) (f : A → Option B)
    → ((a : A) → Whenever Q (f a))
    → Whenever Q (m >>= f)
Whenever-then Q none f k = tt
Whenever-then Q (some a) f k = k a
