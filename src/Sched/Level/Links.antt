-- ===== src/Sched/Level/Links.antt =====
-- Linked nodes as a list of addresses, from the tail to the head.
use ift.Base.{
  ℕ, ◌≡◌, ◌≢◌, refl, sym, ◌∙◌, ap, Option, none, some, List, [], ◌∷◌, ◌++◌, arith, All, AllPairs,
  All-mono,
}
use ift.Sched.Level.{Node, Cells, put, set_next, set_prev}

-- the first address, and the last one
abbrev pub first : List ℕ → Option ℕ → Option ℕ
first [] after = after
first (a ∷ nodes) after = some a

abbrev pub last : List ℕ → Option ℕ → Option ℕ
last [] before = before
last (a ∷ nodes) before = last nodes (some a)

-- The nodes are linked both ways, between the neighbours `before` and `after`.
abbrev pub Seg : Cells → Option ℕ → List ℕ → Option ℕ → Type 0
Seg c before [] after = Unit
Seg c before (a ∷ nodes) after =
    ((c a).prev ≡ before) × ((c a).next ≡ first nodes after) × Seg c (some a) nodes after

abbrev pub Whenever : (ℕ → Type 0) → Option ℕ → Type 0
Whenever P none = Unit
Whenever P (some a) = P a

pub first-All :
    (P : ℕ → Type 0) (nodes : List ℕ) (after : Option ℕ)
    → All P nodes
    → Whenever P after
    → Whenever P (first nodes after)
first-All P [] after h k = k
first-All P (a ∷ nodes) after h k = h.0

pub last-All :
    (P : ℕ → Type 0) (nodes : List ℕ) (before : Option ℕ)
    → All P nodes
    → Whenever P before
    → Whenever P (last nodes before)
last-All P [] before h k = k
last-All P (a ∷ nodes) before h k = last-All P nodes (some a) h.1 h.0

pub first-append :
    (xs ys : List ℕ) (after : Option ℕ) → first (xs ++ ys) after ≡ first xs (first ys after)
first-append [] ys after = refl
first-append (x ∷ xs) ys after = refl

pub last-append :
    (xs ys : List ℕ) (before : Option ℕ) → last (xs ++ ys) before ≡ last ys (last xs before)
last-append [] ys before = refl
last-append (x ∷ xs) ys before = last-append xs ys (some x)

pub Seg-split :
    (c : Cells) (before : Option ℕ) (xs ys : List ℕ) (after : Option ℕ)
    → Seg c before (xs ++ ys) after
    → Seg c before xs (first ys after) × Seg c (last xs before) ys after
Seg-split c before [] ys after h = (tt, h)
Seg-split c before (x ∷ xs) ys after h =
    let (l, r) = Seg-split c (some x) xs ys after h.2 in
    ((h.0, h.1 ∙ first-append xs ys after, l), r)

pub Seg-append :
    (c : Cells) (before : Option ℕ) (xs ys : List ℕ) (after : Option ℕ)
    → Seg c before xs (first ys after)
    → Seg c (last xs before) ys after
    → Seg c before (xs ++ ys) after
Seg-append c before [] ys after l r = r
Seg-append c before (x ∷ xs) ys after l r =
    (l.0, l.1 ∙ sym (first-append xs ys after), Seg-append c (some x) xs ys after l.2 r)

-- Cells that agree on the addresses have the same links.
pub Seg-frame :
    (c d : Cells) (before : Option ℕ) (nodes : List ℕ) (after : Option ℕ)
    → All (λ a. d a ≡ c a) nodes
    → Seg c before nodes after
    → Seg d before nodes after
Seg-frame c d before [] after e h = tt
Seg-frame c d before (a ∷ nodes) after e h = (
  ap (λ (n : Node). n.prev) e.0 ∙ h.0,
  ap (λ (n : Node). n.next) e.0 ∙ h.1,
  Seg-frame c d (some a) nodes after e.1 h.2,
)

pub put-same : (c : Cells) (a : ℕ) (n : Node) → put c a n a ≡ n
unfolding put
put-same c a n = ground arith

pub put-apart : (c : Cells) (a b : ℕ) (n : Node) → b ≢ a → put c a n b ≡ c b
unfolding put
put-apart c a b n ne = ground arith

pub set_next-apart :
    (c : Cells) (o v : Option ℕ) (b : ℕ) → Whenever (λ a. b ≢ a) o → set_next c o v b ≡ c b
unfolding set_next
set_next-apart c none v b h = refl
set_next-apart c (some a) v b h = put-apart c a b _ h

pub set_prev-apart :
    (c : Cells) (o v : Option ℕ) (b : ℕ) → Whenever (λ a. b ≢ a) o → set_prev c o v b ≡ c b
unfolding set_prev
set_prev-apart c none v b h = refl
set_prev-apart c (some a) v b h = put-apart c a b _ h

-- The last node gets a new neighbour.
pub set_next-Seg :
    (c : Cells) (before : Option ℕ) (nodes : List ℕ) (after v : Option ℕ)
    → AllPairs (λ a b. a ≢ b) nodes
    → Seg c before nodes after
    → Seg (set_next c (last nodes none) v) before nodes v
unfolding set_next
set_next-Seg c before [] after v d h = tt
set_next-Seg c before (a ∷ []) after v d h =
    let e = put-same c a (record (c a) { next = v }) in
    (ap (λ (n : Node). n.prev) e ∙ h.0, ap (λ (n : Node). n.next) e, tt)
set_next-Seg c before (a ∷ b ∷ nodes) after v d h =
    let e =
      set_next-apart c (last (b ∷ nodes) none) v a
        (last-All (λ z. a ≢ z) (b ∷ nodes) none d.0 tt) in
    (
      ap (λ (n : Node). n.prev) e ∙ h.0,
      ap (λ (n : Node). n.next) e ∙ h.1,
      set_next-Seg c (some a) (b ∷ nodes) after v d.1 h.2,
    )

-- The first node gets a new neighbour.
pub set_prev-Seg :
    (c : Cells) (before : Option ℕ) (nodes : List ℕ) (after v : Option ℕ)
    → AllPairs (λ a b. a ≢ b) nodes
    → Seg c before nodes after
    → Seg (set_prev c (first nodes none) v) v nodes after
unfolding set_prev
set_prev-Seg c before [] after v d h = tt
set_prev-Seg c before (a ∷ nodes) after v d h =
    let e = put-same c a (record (c a) { prev = v }) in
    (
      ap (λ (n : Node). n.prev) e,
      ap (λ (n : Node). n.next) e ∙ h.1,
      Seg-frame c _ (some a) nodes after
          (All-mono (λ z. a ≢ z) _ nodes (λ b ne. put-apart c a b _ λ e2. ne (sym e2)) d.0) h.2,
    )
