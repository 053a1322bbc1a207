-- ===== src/Base/Preds.antt =====
-- Predicates on the entries of a list, by recursion: they compute to tuples at concrete lists.
use mathlib.Core.Path.{◌≡◌, refl}
use mathlib.Core.List.{List, [], ◌∷◌, ◌++◌, map}
use Prim.Native.Nat.{ℕ, zero, suc, ◌<◌}
use native.Mathlib.Omega.{arith}
use mathlib.Core.Option.{Option, none, some}
use mathlib.Core.Bool.{Bool, true, false}
use ift.Base.Tests.{◌>>=◌, if◌then◌else◌}
use ift.Base.Lists.{length, get_or, get_elem?, set, replicate}

module _ {ℓ κ} {A : Type ℓ} where
  abbrev pub All : (A → Type κ) → List A → Type κ
  All P [] = Unit
  All P (x ∷ xs) = P x × All P xs

  -- `R` between each entry and every later one
  abbrev pub AllPairs : (A → A → Type κ) → List A → Type κ
  AllPairs R [] = Unit
  AllPairs R (x ∷ xs) = All (R x) xs × AllPairs R xs

module _ {ℓ κ} {A : Type ℓ} where
  pub All-mono {μ} :
      (P : A → Type κ) (Q : A → Type μ) (xs : List A) → ((a : A) → P a → Q a) → All P xs → All Q xs
  All-mono P Q [] f h = tt
  All-mono P Q (x ∷ xs) f h = (f x h.0, All-mono P Q xs f h.1)

  pub All-zip {μ ν} :
      (P : A → Type κ) (Q : A → Type μ) (R : A → Type ν) (xs : List A)
      → ((a : A) → P a → Q a → R a)
      → All P xs
      → All Q xs
      → All R xs
  All-zip P Q R [] f h k = tt
  All-zip P Q R (x ∷ xs) f h k = (f x h.0 k.0, All-zip P Q R xs f h.1 k.1)

  pub All-every : (P : A → Type κ) (xs : List A) → ((a : A) → P a) → All P xs
  All-every P [] f = tt
  All-every P (x ∷ xs) f = (f x, All-every P xs f)

  pub All-set : (P : A → Type κ) (xs : List A) (i : ℕ) (v : A) → P v → All P xs → All P (set xs i v)
  All-set P [] i v p h = tt
  All-set P (x ∷ xs) zero v p h = (p, h.1)
  All-set P (x ∷ xs) (suc i) v p h = (h.0, All-set P xs i v p h.1)

  pub All-map :
      (P : A → Type κ) (f : A → A) (xs : List A)
      → ((a : A) → P a → P (f a))
      → All P xs
      → All P (map f xs)
  All-map P f [] k h = tt
  All-map P f (x ∷ xs) k h = (k x h.0, All-map P f xs k h.1)

  pub All-replicate : (P : A → Type κ) (n : ℕ) (a : A) → P a → All P (replicate n a)
  All-replicate P zero a p = tt
  All-replicate P (suc n) a p = (p, All-replicate P n a p)

  pub All-append : (P : A → Type κ) (xs ys : List A) → All P xs → All P ys → All P (xs ++ ys)
  All-append P [] ys h k = k
  All-append P (x ∷ xs) ys h k = (h.0, All-append P xs ys h.1 k)

  pub All-get_or :
      (P : A → Type κ) (xs : List A) (i : ℕ) (d : A) → i < length xs → All P xs → P (get_or xs i d)
  All-get_or P [] i d lt h = absurd (omega arith)
  All-get_or P (x ∷ xs) zero d lt h = h.0
  All-get_or P (x ∷ xs) (suc i) d lt h = All-get_or P xs i d (omega arith) h.1

module _ {ℓ κ} {A : Type ℓ} (R : A → A → Type κ) where
  pub AllPairs-set :
      (xs : List A) (i : ℕ) (v : A)
      → All (R v) xs
      → All (λ a. R a v) xs
      → AllPairs R xs
      → AllPairs R (set xs i v)
  AllPairs-set [] i v h k p = tt
  AllPairs-set (x ∷ xs) zero v h k p = (h.1, p.1)
  AllPairs-set (x ∷ xs) (suc i) v h k p =
      (All-set (R x) xs i v k.0 p.0, AllPairs-set xs i v h.1 k.1 p.1)

  pub AllPairs-map :
      (f : A → A) (xs : List A)
      → ((a b : A) → R a b → R (f a) (f b))
      → AllPairs R xs
      → AllPairs R (map f xs)
  AllPairs-map f [] k p = tt
  AllPairs-map f (x ∷ xs) k p = (all xs p.0, AllPairs-map f xs k p.1)
    where
      all : (ys : List A) → All (R x) ys → All (R (f x)) (map f ys)
      all [] h = tt
      all (y ∷ ys) h = (k x y h.0, all ys h.1)

pub AllPairs-replicate {ℓ κ} :
    {A : Type ℓ} (R : A → A → Type κ) (n : ℕ) (a : A) → R a a → AllPairs R (replicate n a)
AllPairs-replicate R zero a r = tt
AllPairs-replicate R (suc n) a r = (All-replicate (R a) n a r, AllPairs-replicate R n a r)

-- A call returns, and what it returns has `P`.
abbrev pub Yields {ℓ} : {A : Type ℓ} → (A → Type 0) → Option A → Type 0
Yields P none = ⊥
Yields P (some a) = P a

pub Yields-some {ℓ} :
    {A : Type ℓ} (P : A → Type 0) (o : Option A) → Yields P o → (a : A) × (o ≡ some a) × P a
Yields-some P none h = absurd h
Yields-some P (some a) h = (a, refl, h)

pub Yields-bind {ℓ κ} :
    {A : Type ℓ} {B : Type κ} (P : A → Type 0) (Q : B → Type 0) (o : Option A) (f : A → Option B)
    → Yields P o
    → ((a : A) → P a → Yields Q (f a))
    → Yields Q (o >>= f)
Yields-bind P Q none f h k = absurd h
Yields-bind P Q (some a) f h k = k a h

pub Yields-mono {ℓ} :
    {A : Type ℓ} (P Q : A → Type 0) (o : Option A) → ((a : A) → P a → Q a) → Yields P o → Yields Q o
Yields-mono P Q none k h = h
Yields-mono P Q (some a) k h = k a h

pub Yields-both {ℓ} :
    {A : Type ℓ} (P Q : A → Type 0) (o : Option A)
    → Yields P o
    → Yields Q o
    → Yields (λ a. P a × Q a) o
Yields-both P Q none h k = h
Yields-both P Q (some a) h k = (h, k)

-- A test whose branches both return.
pub Yields-if {ℓ} :
    {A : Type ℓ} (P : A → Type 0) (b : Bool) (x y : Option A)
    → Yields P x
    → Yields P y
    → Yields P (if b then x else y)
Yields-if P true x y h k = h
Yields-if P false x y h k = k

pub some_of_lt {ℓ} :
    {A : Type ℓ} (xs : List A) (i : ℕ) → i < length xs → (a : A) × (get_elem? xs i ≡ some a)
some_of_lt [] i h = absurd (omega arith)
some_of_lt (x ∷ xs) zero h = (x, refl)
some_of_lt (x ∷ xs) (suc i) h = some_of_lt xs i (omega arith)
