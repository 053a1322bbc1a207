-- ===== src/Sched/Level/Unlink.antt =====
-- The removal of a node from a level, on the list of processes.
use ift.Sched.Level.Links.{
  first, last, Seg, Whenever, first-All, last-All, Seg-split, Seg-append, Seg-frame, set_next-apart,
  set_prev-apart, set_next-Seg, set_prev-Seg, last-append,
}
use ift.Sched.Level.Insert.{
  Rep, at, All-split, AllPairs-split, AllPairs-join, flip, map-append, length-map, set_next-process,
  set_prev-process,
}
use mathlib.Core.List.{append-nil}
use ift.Base.{
  ℕ, ◌-◌, ◌<◌, ◌≡◌, ◌≢◌, refl, sym, ◌∙◌, ap, subst, true, Option, none, some, is_some, List, [],
  ◌∷◌, ◌++◌, arith, if◌then◌else◌, map, length, length-append, All, AllPairs, All-mono, All-append,
}
use ift.Sched.Level.{Cells, Level, set_next, set_prev, unlink, pop_head}

before_gap :
    (c : Cells) (xs : List ℕ) (after v next v2 : Option ℕ)
    → AllPairs (λ a b. a ≢ b) xs
    → All (λ a. Whenever (λ b. a ≢ b) next) xs
    → Seg c none xs after
    → Seg (set_prev (set_next c (last xs none) v) next v2) none xs v
before_gap c xs after v next v2 d k s =
    Seg-frame _ _ none xs v (All-mono _ _ xs (λ a h. set_prev-apart _ next v2 a h) k)
      (set_next-Seg c none xs after v d s)

behind_gap :
    (c : Cells) (ys : List ℕ) (before prev v v2 : Option ℕ)
    → AllPairs (λ a b. a ≢ b) ys
    → All (λ a. Whenever (λ b. a ≢ b) prev) ys
    → Seg c before ys none
    → Seg (set_prev (set_next c prev v) (first ys none) v2) v2 ys none
behind_gap c ys before prev v v2 d k s =
    set_prev-Seg (set_next c prev v) before ys none v2 d
      (Seg-frame _ _ before ys none (All-mono _ _ ys (λ a h. set_next-apart _ prev v a h) k) s)

gap_processes :
    (c : Cells) (prev next v v2 : Option ℕ) (xs : List ℕ)
    → map (λ a. (set_prev (set_next c prev v) next v2 a).process) xs ≡ map (λ a. (c a).process) xs
gap_processes c prev next v v2 [] = refl
gap_processes c prev next v v2 (x ∷ xs) =
    let e = set_prev-process (set_next c prev v) next v2 x ∙ set_next-process c prev v x in
    cc (e, gap_processes c prev next v v2 xs)

is_some-last : (xs : List ℕ) (x : ℕ) → is_some (last xs (some x)) ≡ true
is_some-last [] x = refl
is_some-last (y ∷ xs) x = is_some-last xs y

old_head :
    (xs ys : List ℕ) (a : ℕ) (head prev : Option ℕ)
    → head ≡ last (xs ++ a ∷ ys) none
    → prev ≡ last xs none
    → (if is_some (first ys none) then head else prev) ≡ last (xs ++ ys) none
old_head xs [] a head prev e e2 = e2 ∙ sym (last-append xs [] none)
old_head xs (y ∷ ys) a head prev e e2 =
    e ∙ last-append xs (a ∷ y ∷ ys) none ∙ sym (last-append xs (y ∷ ys) none)

old_tail :
    (xs ys : List ℕ) (a : ℕ) (tail next : Option ℕ)
    → tail ≡ first (xs ++ a ∷ ys) none
    → next ≡ first ys none
    → (if is_some (last xs none) then tail else next) ≡ first (xs ++ ys) none
old_tail [] ys a tail next e e2 = e2
old_tail (x ∷ xs) ys a tail next e e2 = rw (is_some-last xs x) e

-- Without the node, the processes before it and those behind it are left.
pub unlink-Rep :
    (l : Level) (ps : List (Option ℕ)) (r : Rep l ps) (xs : List ℕ) (a : ℕ) (ys : List ℕ)
    → r.nodes ≡ xs ++ a ∷ ys
    → Rep (unlink l (last xs none) a) (map (at l) xs ++ map (at l) ys)
unfolding unlink
unlink-Rep l ps r xs a ys e =
    let seg : Seg l.cells none (xs ++ a ∷ ys) none = subst (λ z. Seg l.cells none z none) e r.seg in
    let (sx, (prev, next, sy)) = Seg-split l.cells none xs (a ∷ ys) none seg in
    let (dx, (apart, dy), cross) =
      AllPairs-split xs (a ∷ ys) (subst (AllPairs (λ a b. a ≢ b)) e r.distinct) in
    let (ux, uy) =
      All-split (λ a. a < l.fresh) xs (a ∷ ys) (subst (All (λ a. a < l.fresh)) e r.used) in
    let cross2 : All (λ x. All (λ y. x ≢ y) ys) xs = All-mono _ _ xs (λ x h. h.1) cross in
    let kx = All-mono _ _ xs (λ a h. first-All (λ b. a ≢ b) ys none h tt) cross2 in
    let ky = All-mono _ _ ys (λ a h. last-All (λ b. a ≢ b) xs none h tt) (flip xs ys cross2) in
    subst
      (λ n.
        Rep
          (record l {
            cells = set_prev (set_next l.cells (last xs none) n) n (last xs none);
            head = if is_some n then l.head else (l.cells a).prev;
            tail = if is_some (last xs none) then l.tail else n;
            size = l.size - 1;
          })
          (map (at l) xs ++ map (at l) ys))
      (sym next)
      (record {
        nodes = xs ++ ys;
        seg =
            Seg-append
              (set_prev (set_next l.cells (last xs none) (first ys none)) (first ys none)
                (last xs none))
              none xs ys none
              (before_gap l.cells xs (some a) (first ys none) (first ys none) (last xs none) dx kx
                sx)
              (behind_gap l.cells ys (some a) (last xs none) (first ys none) (last xs none) dy ky
                sy);
        head_last =
            old_head xs ys a l.head (l.cells a).prev (r.head_last ∙ ap (λ z. last z none) e) prev;
        tail_first =
            old_tail xs ys a l.tail (first ys none) (r.tail_first ∙ ap (λ z. first z none) e) refl;
        distinct = AllPairs-join xs ys dx dy cross2;
        used = All-append (λ a. a < l.fresh) xs ys ux uy.1;
        processes =
            gap_processes l.cells (last xs none) (first ys none) (first ys none) (last xs none)
              (xs ++ ys)
            ∙ map-append (at l) xs ys;
        size_length =
            let count : length (xs ++ a ∷ ys) ≡ l.size =
              ap length (sym e)
              ∙ sym (length-map (at l) r.nodes)
              ∙ ap length r.processes
              ∙ sym r.size_length in
            omega (
              arith,
              count,
              length-append xs (a ∷ ys),
              length-append (map (at l) xs) (map (at l) ys),
              length-map (at l) xs,
              length-map (at l) ys,
            );
      })

-- The parts of the node list for the parts of the list of processes.
map-split :
    (f : ℕ → Option ℕ) (zs : List ℕ) (qs ss : List (Option ℕ))
    → map f zs ≡ qs ++ ss
    → (xs : List ℕ) × (ys : List ℕ) × (zs ≡ xs ++ ys) × (map f xs ≡ qs) × (map f ys ≡ ss)
map-split f zs [] ss e = ([], zs, refl, refl, e)
map-split f [] (q ∷ qs) ss e = absurd (cc e)
map-split f (z ∷ zs) (q ∷ qs) ss e =
    let e1 : f z ≡ q = cc e in
    let e2 : map f zs ≡ qs ++ ss = cc e in
    let (xs, ys, h, l, r) = map-split f zs qs ss e2 in
    (z ∷ xs, ys, ap (λ w. z ∷ w) h, cc (e1, l), r)

map-one :
    (f : ℕ → Option ℕ) (ys : List ℕ) (q : Option ℕ) (ss : List (Option ℕ))
    → map f ys ≡ q ∷ ss
    → (a : ℕ) × (rest : List ℕ) × (ys ≡ a ∷ rest) × (f a ≡ q) × (map f rest ≡ ss)
map-one f [] q ss e = absurd (cc e)
map-one f (y ∷ ys) q ss e = (y, ys, refl, cc e, cc e)

-- what the links of a node are, in the middle of the list
middle :
    (l : Level) (ps : List (Option ℕ)) (r : Rep l ps) (xs : List ℕ) (a : ℕ) (ys : List ℕ)
    → r.nodes ≡ xs ++ a ∷ ys
    → ((l.cells a).prev ≡ last xs none) × ((l.cells a).next ≡ first ys none)
middle l ps r xs a ys e =
    let (sx, (prev, next, sy)) =
      Seg-split l.cells none xs (a ∷ ys) none (subst (λ z. Seg l.cells none z none) e r.seg) in
    (prev, next)

pop_head-unlink :
    (l : Level) (a : ℕ)
    → l.head ≡ some a
    → (l.cells a).next ≡ none
    → pop_head l ≡ ((l.cells a).process, unlink l (l.cells a).prev a)
unfolding pop_head unlink set_prev
pop_head-unlink l a e e2 = rw (e, e2, pop_head) refl

map-nil : (f : ℕ → Option ℕ) (ys : List ℕ) → map f ys ≡ [] → ys ≡ []
map-nil f [] e = refl
map-nil f (y ∷ ys) e = absurd (cc e)

-- The head is popped: the last process of the list.
pub pop_head-Rep :
    (l : Level) (qs : List (Option ℕ)) (q : Option ℕ)
    → Rep l (qs ++ q ∷ [])
    → ((pop_head l).0 ≡ q) × Rep (pop_head l).1 qs
pop_head-Rep l qs q r =
    let (xs, ys, e, ex, ey) = map-split (at l) r.nodes qs (q ∷ []) r.processes in
    let (a, rest, e2, ea, er) = map-one (at l) ys q [] ey in
    let nodes : r.nodes ≡ xs ++ a ∷ [] =
      e ∙ ap (λ z. xs ++ z) (e2 ∙ ap (λ z. a ∷ z) (map-nil (at l) rest er)) in
    let (prev, next) = middle l (qs ++ q ∷ []) r xs a [] nodes in
    let head : l.head ≡ some a =
      r.head_last ∙ ap (λ z. last z none) nodes ∙ last-append xs (a ∷ []) none in
    let popped =
      pop_head-unlink l a head next ∙ ap (λ o. ((l.cells a).process, unlink l o a)) prev in
    let rep = unlink-Rep l (qs ++ q ∷ []) r xs a [] nodes in
    (
      ap (λ (x : Option ℕ × Level). x.0) popped ∙ ea,
      subst (λ (x : Level). Rep x qs) (sym (ap (λ (x : Option ℕ × Level). x.1) popped))
          (subst (Rep (unlink l (last xs none) a)) (append-nil (map (at l) xs) ∙ ex) rep),
    )
