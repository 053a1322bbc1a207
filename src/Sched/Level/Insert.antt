-- ===== src/Sched/Level/Insert.antt =====
-- A level as the list of its processes, and what the insertion of a node does to the list.
use ift.Base.{
  ℕ, suc, ◌+◌, ◌<◌, ◌≡◌, ◌≢◌, refl, sym, ◌∙◌, ap, Option, none, some, List, [], ◌∷◌, ◌++◌, arith,
  map, length, length-append, All, AllPairs, All-mono, All-append, All-zip, subst,
}
use ift.Sched.Level.{Node, Cells, Level, put, set_next, set_prev, splice, or_new}
use ift.Sched.Level.Links.{
  first, last, Seg, Whenever, first-All, last-All, Seg-split, Seg-append, Seg-frame, put-same,
  put-apart, set_next-apart, set_prev-apart, set_next-Seg, set_prev-Seg, last-append,
}

-- The nodes of the level, from the tail to the head, and the processes that they hold.
pub record Rep (l : Level) (ps : List (Option ℕ)) : Type 0 where
  pub nodes : List ℕ
  pub seg : Seg l.cells none nodes none
  pub head_last : l.head ≡ last nodes none
  pub tail_first : l.tail ≡ first nodes none
  pub distinct : AllPairs (λ a b. a ≢ b) nodes
  pub used : All (λ a. a < l.fresh) nodes
  pub processes : map (λ a. (l.cells a).process) nodes ≡ ps
  pub size_length : l.size ≡ length ps

pub All-split : (P : ℕ → Type 0) (xs ys : List ℕ) → All P (xs ++ ys) → All P xs × All P ys
All-split P [] ys h = (tt, h)
All-split P (x ∷ xs) ys h = let (l, r) = All-split P xs ys h.1 in ((h.0, l), r)

pub AllPairs-split :
    (xs ys : List ℕ)
    → AllPairs (λ a b. a ≢ b) (xs ++ ys)
    → AllPairs (λ a b. a ≢ b) xs × AllPairs (λ a b. a ≢ b) ys × All (λ x. All (λ y. x ≢ y) ys) xs
AllPairs-split [] ys d = (tt, d, tt)
AllPairs-split (x ∷ xs) ys d =
    let (l, r, c) = AllPairs-split xs ys d.1 in
    let (h, k) = All-split (λ b. x ≢ b) xs ys d.0 in ((h, l), r, (k, c))

pub AllPairs-join :
    (xs ys : List ℕ)
    → AllPairs (λ a b. a ≢ b) xs
    → AllPairs (λ a b. a ≢ b) ys
    → All (λ x. All (λ y. x ≢ y) ys) xs
    → AllPairs (λ a b. a ≢ b) (xs ++ ys)
AllPairs-join [] ys d e c = e
AllPairs-join (x ∷ xs) ys d e c =
    (All-append (λ b. x ≢ b) xs ys d.0 c.0, AllPairs-join xs ys d.1 e c.1)

-- The writes of `splice`, on the nodes before the new one.
before_new :
    (c : Cells) (n : ℕ) (node : Node) (xs : List ℕ) (current : Option ℕ)
    → AllPairs (λ a b. a ≢ b) xs
    → All (λ a. a ≢ n) xs
    → All (λ a. Whenever (λ b. a ≢ b) current) xs
    → Seg c none xs current
    → Seg
        (set_prev (set_next (put c n node) (last xs none) (some n)) current (some n))
        none
        xs
        (some n)
before_new c n node xs current d f k s =
    Seg-frame _ _ none xs (some n)
      (All-mono _ _ xs (λ a h. set_prev-apart _ current (some n) a h) k)
      (set_next-Seg (put c n node) none xs current (some n) d
        (Seg-frame c _ none xs current (All-mono _ _ xs (λ a h. put-apart c n a node h) f) s))

-- ... and behind it
after_new :
    (c : Cells) (n : ℕ) (node : Node) (ys : List ℕ) (prev : Option ℕ)
    → AllPairs (λ a b. a ≢ b) ys
    → All (λ a. a ≢ n) ys
    → All (λ a. Whenever (λ b. a ≢ b) prev) ys
    → Seg c prev ys none
    → Seg
        (set_prev (set_next (put c n node) prev (some n)) (first ys none) (some n))
        (some n)
        ys
        none
after_new c n node ys prev d f k s =
    set_prev-Seg (set_next (put c n node) prev (some n)) prev ys none (some n) d (
      Seg-frame _ _ prev ys none (All-mono _ _ ys (λ a h. set_next-apart _ prev (some n) a h) k)
        (Seg-frame c _ prev ys none (All-mono _ _ ys (λ a h. put-apart c n a node h) f) s))

-- the new node itself
new_node :
    (c : Cells) (n : ℕ) (node : Node) (prev current : Option ℕ)
    → Whenever (λ a. n ≢ a) prev
    → Whenever (λ a. n ≢ a) current
    → set_prev (set_next (put c n node) prev (some n)) current (some n) n ≡ node
new_node c n node prev current h k =
    set_prev-apart _ current (some n) n k ∙ set_next-apart _ prev (some n) n h ∙ put-same c n node

-- The writes leave the processes of the other nodes.
pub set_next-process :
    (c : Cells) (o v : Option ℕ) (b : ℕ) → (set_next c o v b).process ≡ (c b).process
unfolding set_next put
set_next-process c none v b = refl
set_next-process c (some a) v b = ground arith

pub set_prev-process :
    (c : Cells) (o v : Option ℕ) (b : ℕ) → (set_prev c o v b).process ≡ (c b).process
unfolding set_prev put
set_prev-process c none v b = refl
set_prev-process c (some a) v b = ground arith

pub map-All : (f g : ℕ → Option ℕ) (xs : List ℕ) → All (λ a. f a ≡ g a) xs → map f xs ≡ map g xs
map-All f g [] h = refl
map-All f g (x ∷ xs) h = cc (h.0, map-All f g xs h.1)

pub map-append : (f : ℕ → Option ℕ) (xs ys : List ℕ) → map f (xs ++ ys) ≡ map f xs ++ map f ys
map-append f [] ys = refl
map-append f (x ∷ xs) ys = ap (λ l. f x ∷ l) (map-append f xs ys)

pub length-map : (f : ℕ → Option ℕ) (xs : List ℕ) → length (map f xs) ≡ length xs
length-map f [] = refl
length-map f (x ∷ xs) = ap suc (length-map f xs)

or_new-last : (xs : List ℕ) (x n : ℕ) (o : Option ℕ) → or_new (last xs (some x)) n o ≡ o
or_new-last [] x n o = refl
or_new-last (y ∷ xs) x n o = or_new-last xs y n o

new_head :
    (xs ys : List ℕ) (n : ℕ) (head : Option ℕ)
    → head ≡ last (xs ++ ys) none
    → or_new (first ys none) n head ≡ last (xs ++ n ∷ ys) none
new_head xs [] n head e = sym (last-append xs (n ∷ []) none)
new_head xs (y ∷ ys) n head e =
    e ∙ last-append xs (y ∷ ys) none ∙ sym (last-append xs (n ∷ y ∷ ys) none)

new_tail :
    (xs ys : List ℕ) (n : ℕ) (tail : Option ℕ)
    → tail ≡ first (xs ++ ys) none
    → or_new (last xs none) n tail ≡ first (xs ++ n ∷ ys) none
new_tail [] ys n tail e = refl
new_tail (x ∷ xs) ys n tail e = or_new-last xs x n tail ∙ e

-- The processes of a level whose node list is `nodes`.
abbrev pub at : Level → ℕ → Option ℕ
at l a = (l.cells a).process

new_processes :
    (l : Level) (process : Option ℕ) (xs ys : List ℕ)
    → All (λ a. a ≢ l.fresh) xs
    → All (λ a. a ≢ l.fresh) ys
    → Whenever (λ a. l.fresh ≢ a) (last xs none)
    → Whenever (λ a. l.fresh ≢ a) (first ys none)
    → map (at (splice l process (last xs none) (first ys none))) (xs ++ l.fresh ∷ ys)
      ≡ map (at l) xs ++ process ∷ map (at l) ys
unfolding splice
new_processes l process xs ys fx fy hp hc =
    let n = l.fresh in
    let node : Node = record { process = process; next = first ys none; prev = last xs none } in
    let l' = splice l process (last xs none) (first ys none) in
    let keep : (a : ℕ) → a ≢ n → at l' a ≡ at l a = λ a ne.
      set_prev-process _ (first ys none) (some n) a
      ∙ set_next-process _ (last xs none) (some n) a
      ∙ ap (λ (m : Node). m.process) (put-apart l.cells n a node ne) in
    let e1 = map-All (at l') (at l) xs (All-mono _ _ xs keep fx) in
    let e2 = map-All (at l') (at l) ys (All-mono _ _ ys keep fy) in
    let e3 =
      ap (λ (m : Node). m.process) (new_node l.cells n node (last xs none) (first ys none) hp hc) in
    map-append (at l') xs (n ∷ ys) ∙ cc (e1, e2, e3)

apart_fresh :
    (l : Level) (xs : List ℕ)
    → All (λ a. a < l.fresh) xs
    → All (λ a. a ≢ l.fresh) xs × All (λ a. l.fresh ≢ a) xs
apart_fresh l xs h = (
  All-mono _ _ xs (λ a lt e. absurd (omega arith)) h,
  All-mono _ _ xs (λ a lt e. absurd (omega arith)) h,
)

pub flip : (xs ys : List ℕ) → All (λ x. All (λ y. x ≢ y) ys) xs → All (λ y. All (λ x. y ≢ x) xs) ys
flip xs [] h = tt
flip xs (y ∷ ys) h =
    (All-mono _ _ xs (λ x k e. k.0 (sym e)) h, flip xs ys (All-mono _ _ xs (λ x k. k.1) h))

-- A new node between two parts of the node list stands between their processes.
pub splice-Rep :
    (l : Level) (process : Option ℕ) (ps : List (Option ℕ)) (r : Rep l ps) (xs ys : List ℕ)
    → r.nodes ≡ xs ++ ys
    → Rep
        (splice l process (last xs none) (first ys none))
        (map (at l) xs ++ process ∷ map (at l) ys)
unfolding splice
splice-Rep l process ps r xs ys e =
    let n = l.fresh in
    let node : Node = record { process = process; next = first ys none; prev = last xs none } in
    let seg : Seg l.cells none (xs ++ ys) none = subst (λ z. Seg l.cells none z none) e r.seg in
    let (sx, sy) = Seg-split l.cells none xs ys none seg in
    let (dx, dy, cross) = AllPairs-split xs ys (subst (AllPairs (λ a b. a ≢ b)) e r.distinct) in
    let used : All (λ a. a < n) (xs ++ ys) = subst (All (λ a. a < n)) e r.used in
    let (ux, uy) = All-split (λ a. a < n) xs ys used in
    let (fx, gx) = apart_fresh l xs ux in
    let (fy, gy) = apart_fresh l ys uy in
    let hp = last-All (λ a. n ≢ a) xs none gx tt in
    let hc = first-All (λ a. n ≢ a) ys none gy tt in
    let kx = All-mono _ _ xs (λ a h. first-All (λ b. a ≢ b) ys none h tt) cross in
    let ky = All-mono _ _ ys (λ a h. last-All (λ b. a ≢ b) xs none h tt) (flip xs ys cross) in
    let e_new = new_node l.cells n node (last xs none) (first ys none) hp hc in
    record {
      nodes = xs ++ n ∷ ys;
      seg =
          Seg-append (splice l process (last xs none) (first ys none)).cells none xs (n ∷ ys) none
            (before_new l.cells n node xs (first ys none) dx fx kx sx)
            (
              ap (λ (m : Node). m.prev) e_new,
              ap (λ (m : Node). m.next) e_new,
              after_new l.cells n node ys (last xs none) dy fy ky sy,
            );
      head_last = new_head xs ys n l.head (r.head_last ∙ ap (λ z. last z none) e);
      tail_first = new_tail xs ys n l.tail (r.tail_first ∙ ap (λ z. first z none) e);
      distinct =
          AllPairs-join xs (n ∷ ys) dx (gy, dy) (All-zip _ _ _ xs (λ a h k. (h, k)) fx cross);
      used =
          All-append (λ a. a < n + 1) xs (n ∷ ys) (All-mono _ _ xs (λ a lt. omega arith) ux)
            (omega arith, All-mono _ _ ys (λ a lt. omega arith) uy);
      processes = new_processes l process xs ys fx fy hp hc;
      size_length =
          let count : length (xs ++ ys) ≡ l.size =
            ap length (sym e)
            ∙ sym (length-map (at l) r.nodes)
            ∙ ap length r.processes
            ∙ sym r.size_length in
          omega (
            arith,
            count,
            length-append xs ys,
            length-append (map (at l) xs) (process ∷ map (at l) ys),
            length-map (at l) xs,
            length-map (at l) ys,
          );
    }
