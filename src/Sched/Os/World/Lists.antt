-- ===== src/Sched/Os/World/Lists.antt =====
-- Lists of records beside lists of phases, and sums over lists.
use ift.Base.{
  ℕ, zero, suc, ◌+◌, ◌≡◌, refl, ap, subst, Bool, true, false, Option, none, some, List, [], ◌∷◌,
  arith, if◌then◌else◌, length, get_elem?, modify, All, set, drop,
}

pub some_inj {ℓ} : {A : Type ℓ} {x y : A} → some x ≡ some y → x ≡ y
some_inj e = ground (arith, e)

pub if_same {ℓ κ} :
    {A : Type ℓ} {B : Type κ} (c : Bool) (f : A → B) (x y : A)
    → f x ≡ f y
    → f (if c then x else y) ≡ f y
if_same true f x y e = e
if_same false f x y e = refl

pub All-modify {ℓ κ} :
    {A : Type ℓ} (P : A → Type κ) (xs : List A) (i : ℕ) (f : A → A)
    → ((a : A) → get_elem? xs i ≡ some a → P a → P (f a))
    → All P xs
    → All P (modify xs i f)
All-modify P [] i f k h = tt
All-modify P (x ∷ xs) zero f k h = (k x refl h.0, h.1)
All-modify P (x ∷ xs) (suc i) f k h = (h.0, All-modify P xs i f k h.1)

pub All-some {ℓ κ} :
    {A : Type ℓ} (P : A → Type κ) (xs : List A) (i : ℕ) (x : A)
    → get_elem? xs i ≡ some x
    → All P xs
    → P x
All-some P [] i x e h = absurd (ground (arith, e))
All-some P (y ∷ xs) zero x e h = subst P (some_inj e) h.0
All-some P (y ∷ xs) (suc i) x e h = All-some P xs i x e h.1

pub get_elem?-modify {ℓ} :
    {A : Type ℓ} (bs : List A) (k : ℕ) (f : A → A) (b : A)
    → get_elem? bs k ≡ some b
    → get_elem? (modify bs k f) k ≡ some (f b)
get_elem?-modify [] k f b e = absurd (ground (arith, e))
get_elem?-modify (c ∷ bs) zero f b e = ap (λ x. some (f x)) (some_inj e)
get_elem?-modify (c ∷ bs) (suc k) f b e = get_elem?-modify bs k f b e

pub set_same {ℓ} :
    {A : Type ℓ} (xs : List A) (i : ℕ) (x : A) → get_elem? xs i ≡ some x → set xs i x ≡ xs
set_same [] i x e = refl
set_same (y ∷ xs) zero x e = ap (λ z. z ∷ xs) (ground (arith, e))
set_same (y ∷ xs) (suc i) x e = ap (λ l. y ∷ l) (set_same xs i x e)

pub drop_all {ℓ} : {A : Type ℓ} (xs : List A) → drop (length xs) xs ≡ []
drop_all [] = refl
drop_all (x ∷ xs) = drop_all xs

abbrev pub sum_of {ℓ} : {A : Type ℓ} → (A → ℕ) → List A → ℕ
sum_of f [] = 0
sum_of f (x ∷ xs) = f x + sum_of f xs

pub sum_of-set {ℓ} :
    {A : Type ℓ} (f : A → ℕ) (xs : List A) (i : ℕ) (x y : A)
    → get_elem? xs i ≡ some x
    → sum_of f (set xs i y) + f x ≡ sum_of f xs + f y
sum_of-set f [] i x y e = absurd (ground (arith, e))
sum_of-set f (z ∷ xs) zero x y e = let same : f z ≡ f x = ap f (some_inj e) in omega (arith, same)
sum_of-set f (z ∷ xs) (suc i) x y e = omega (arith, sum_of-set f xs i x y e)

pub sum_of-modify {ℓ} :
    {A : Type ℓ} (f : A → ℕ) (xs : List A) (i : ℕ) (x : A) (g : A → A)
    → get_elem? xs i ≡ some x
    → sum_of f (modify xs i g) + f x ≡ sum_of f xs + f (g x)
sum_of-modify f [] i x g e = absurd (ground (arith, e))
sum_of-modify f (z ∷ xs) zero x g e =
    let same : f z ≡ f x = ap f (some_inj e) in
    let same' : f (g z) ≡ f (g x) = ap (λ y. f (g y)) (some_inj e) in omega (arith, same, same')
sum_of-modify f (z ∷ xs) (suc i) x g e = omega (arith, sum_of-modify f xs i x g e)

module _ {ℓ κ} {A : Type ℓ} {B : Type κ} where
  -- `R` between the entries of two lists and their index, from `n` on
  abbrev pub AllAt : (ℕ → A → B → Type 0) → ℕ → List A → List B → Type 0
  AllAt R n [] [] = Unit
  AllAt R n [] (y ∷ ys) = ⊥
  AllAt R n (x ∷ xs) [] = ⊥
  AllAt R n (x ∷ xs) (y ∷ ys) = R n x y × AllAt R (suc n) xs ys

  module _ (R : ℕ → A → B → Type 0) where
    pub AllAt-some :
        (n i k : ℕ) (xs : List A) (ys : List B) {y : B}
        → n + i ≡ k
        → AllAt R n xs ys
        → get_elem? ys i ≡ some y
        → (x : A) × (get_elem? xs i ≡ some x) × R k x y
    AllAt-some n i k [] [] e h f = absurd (ground (arith, f))
    AllAt-some n i k [] (y ∷ ys) e h f = absurd h
    AllAt-some n i k (x ∷ xs) [] e h f = absurd h
    AllAt-some n zero k (x ∷ xs) (y ∷ ys) {y = z} e h f =
        let m : n ≡ k = omega (arith, e) in
        let same : y ≡ z = ground (arith, f) in
        (x, refl, subst (λ v. R k x v) same (subst (λ j. R j x y) m h.0))
    AllAt-some n (suc i) k (x ∷ xs) (y ∷ ys) e h f =
        AllAt-some (suc n) i k xs ys (omega (arith, e)) h.1 f

    pub AllAt-modify :
        (n i k : ℕ) (xs : List A) (ys : List B) (f : A → A) (y : B)
        → n + i ≡ k
        → AllAt R n xs ys
        → ((x : A) → get_elem? xs i ≡ some x → R k (f x) y)
        → AllAt R n (modify xs i f) (set ys i y)
    AllAt-modify n i k [] [] f y e h r = tt
    AllAt-modify n i k [] (z ∷ ys) f y e h r = absurd h
    AllAt-modify n i k (x ∷ xs) [] f y e h r = absurd h
    AllAt-modify n zero k (x ∷ xs) (z ∷ ys) f y e h r =
        let m : k ≡ n = omega (arith, e) in (subst (λ j. R j (f x) y) m (r x refl), h.1)
    AllAt-modify n (suc i) k (x ∷ xs) (z ∷ ys) f y e h r =
        (h.0, AllAt-modify (suc n) i k xs ys f y (omega (arith, e)) h.1 r)

    pub AllAt-set :
        (n i k : ℕ) (xs : List A) (ys : List B) (x : A) (y : B)
        → n + i ≡ k
        → AllAt R n xs ys
        → R k x y
        → AllAt R n (set xs i x) (set ys i y)
    AllAt-set n i k [] [] x y e h r = tt
    AllAt-set n i k [] (z ∷ ys) x y e h r = absurd h
    AllAt-set n i k (w ∷ xs) [] x y e h r = absurd h
    AllAt-set n zero k (w ∷ xs) (z ∷ ys) x y e h r =
        let m : k ≡ n = omega (arith, e) in (subst (λ j. R j x y) m r, h.1)
    AllAt-set n (suc i) k (w ∷ xs) (z ∷ ys) x y e h r =
        (h.0, AllAt-set (suc n) i k xs ys x y (omega (arith, e)) h.1 r)

abbrev pub OnSome {ℓ} : {A : Type ℓ} → (A → Type 0) → Option A → Type 0
OnSome P none = Unit
OnSome P (some a) = P a

pub OnSome-if {ℓ} :
    {A : Type ℓ} (P : A → Type 0) (b : Bool) (x y : Option A)
    → OnSome P x
    → OnSome P y
    → OnSome P (if b then x else y)
OnSome-if P true x y h k = h
OnSome-if P false x y h k = k
