-- ===== src/Sched/Level/Push.antt =====
-- The three ways in which `ready_queue_push` inserts a process, on the list of processes.
use ift.Base.{
  inl, inr, ℕ, zero, suc, ◌≤◌, ◌≡◌, refl, sym, ◌∙◌, ap, subst, Bool, true, false, Option, none,
  some, is_some, List, [], ◌∷◌, ◌++◌, arith, ltb, if◌then◌else◌, map, length, All, Bool-cases,
  ◌>>=◌,
}
use mathlib.Core.List.{append-nil}
use ift.Sched.Process.{Processes, length_of}
use ift.Sched.Level.{Cells, Level, splice, seek, push_tail, push_head, push_sorted}
use ift.Sched.Level.Links.{first, last, Seg}
use ift.Sched.Level.Insert.{Rep, at, splice-Rep, length-map}

-- A process at the tail, as a poison pill or a process of the highest level.
pub push_tail-Rep :
    (l : Level) (process : Option ℕ) (ps : List (Option ℕ))
    → Rep l ps
    → Rep (push_tail l process) (process ∷ ps)
unfolding push_tail
push_tail-Rep l process ps r =
    subst (λ t. Rep (splice l process none t) (process ∷ ps)) (sym r.tail_first)
      (subst (λ qs. Rep (splice l process none (first r.nodes none)) (process ∷ qs)) r.processes
        (splice-Rep l process ps r [] r.nodes refl))

-- A process at the head.
pub push_head-Rep :
    (l : Level) (process : Option ℕ) (ps : List (Option ℕ))
    → Rep l ps
    → Rep (push_head l process) (ps ++ process ∷ [])
unfolding push_head
push_head-Rep l process ps r =
    subst (λ h. Rep (splice l process h none) (ps ++ process ∷ [])) (sym r.head_last)
      (subst (λ qs. Rep (splice l process (last r.nodes none) none) (qs ++ process ∷ []))
        r.processes (splice-Rep l process ps r r.nodes [] (sym (append-nil r.nodes))))

-- a process that is shorter than `k`
abbrev pub is_shorter : Processes → ℕ → Option ℕ → Bool
is_shorter procs k none = false
is_shorter procs k (some q) = ltb (length_of (procs q)) k

-- The place of a process: before the first shorter one, counted from the tail.
unfoldable pub insert : Processes → ℕ → List (Option ℕ) → List (Option ℕ)
insert procs p [] = some p ∷ []
insert procs p (q ∷ qs) =
    let rest = insert procs p qs in
    if is_shorter procs (length_of (procs p)) q then some p ∷ q ∷ qs else q ∷ rest

is_some-some : (o : Option ℕ) → is_some o ≡ true → (q : ℕ) × (o ≡ some q)
is_some-some none e = absurd (cc e)
is_some-some (some q) e = (q, refl)

-- What the loop finds in the rest `ys` of the nodes.
record Found (c : Cells) (procs : Processes) (p fuel : ℕ) (prev : Option ℕ) (ys : List ℕ)
    : Type 0 where
  pub before : List ℕ
  pub behind : List ℕ
  pub parts : ys ≡ before ++ behind
  pub found :
      seek fuel c procs (length_of (procs p)) prev (first ys none)
      ≡ some (last before prev, first behind none)
  pub inserted :
      insert procs p (map (λ a. (c a).process) ys)
      ≡ map (λ a. (c a).process) before ++ some p ∷ map (λ a. (c a).process) behind

seek_step :
    (c : Cells) (procs : Processes) (k fuel : ℕ) (prev next : Option ℕ) (a q : ℕ)
    → (c a).process ≡ some q
    → (c a).next ≡ next
    → seek (suc fuel) c procs k prev (some a) ≡ (
        if ltb (length_of (procs q)) k
        then some (prev, some a)
        else seek fuel c procs k (some a) next)
unfolding seek
seek_step c procs k fuel prev next a q e e2 = rw (e, e2, seek) refl

seek_end :
    (fuel : ℕ) (c : Cells) (procs : Processes) (k : ℕ) (prev : Option ℕ)
    → seek fuel c procs k prev none ≡ some (prev, none)
unfolding seek
seek_end zero c procs k prev = refl
seek_end (suc fuel) c procs k prev = refl

insert_step :
    (procs : Processes) (p q : ℕ) (o : Option ℕ) (qs : List (Option ℕ))
    → o ≡ some q
    → insert procs p (o ∷ qs) ≡ (
        if ltb (length_of (procs q)) (length_of (procs p))
        then some p ∷ o ∷ qs
        else o ∷ insert procs p qs)
unfolding insert
insert_step procs p q o qs e = rw e refl

seek-Found :
    (c : Cells) (procs : Processes) (p fuel : ℕ) (prev : Option ℕ) (ys : List ℕ)
    → Seg c prev ys none
    → All (λ a. is_some (c a).process ≡ true) ys
    → length ys ≤ fuel
    → Found c procs p fuel prev ys
unfolding seek insert
seek-Found c procs p fuel prev [] s h le = record {
  before = [];
  behind = [];
  parts = refl;
  found = seek_end fuel c procs (length_of (procs p)) prev;
  inserted = refl;
}
seek-Found c procs p zero prev (a ∷ ys) s h le = absurd (omega arith)
seek-Found c procs p (suc fuel) prev (a ∷ ys) s h le =
    let f = seek-Found c procs p fuel (some a) ys s.2 h.1 (omega arith) in
    let (q, e) = is_some-some (c a).process h.0 in
    let step = seek_step c procs (length_of (procs p)) fuel prev (first ys none) a q e s.1 in
    let step2 = insert_step procs p q (c a).process (map (λ a. (c a).process) ys) e in
    elim (Bool-cases (ltb (length_of (procs q)) (length_of (procs p)))) [
      | inl t ↦ record {
        before = [];
        behind = a ∷ ys;
        parts = refl;
        found = step ∙ rw t refl;
        inserted = step2 ∙ rw t refl;
      }
      | inr t ↦ record {
        before = a ∷ f.before;
        behind = f.behind;
        parts = ap (λ z. a ∷ z) f.parts;
        found = step ∙ rw t f.found;
        inserted = step2 ∙ rw t (ap (λ z. (c a).process ∷ z) f.inserted);
      }
    ]

All-at :
    (c : Cells) (ys : List ℕ)
    → All (λ o. is_some o ≡ true) (map (λ a. (c a).process) ys)
    → All (λ a. is_some (c a).process ≡ true) ys
All-at c [] h = tt
All-at c (y ∷ ys) h = (h.0, All-at c ys h.1)

-- A level without poison pills takes a process at its place.
pub push_sorted-Rep :
    (procs : Processes) (l : Level) (p : ℕ) (ps : List (Option ℕ))
    → Rep l ps
    → All (λ o. is_some o ≡ true) ps
    → (l' : Level) × (push_sorted procs l p ≡ some l') × Rep l' (insert procs p ps)
unfolding push_sorted
push_sorted-Rep procs l p ps r h =
    let some_all =
      All-at l.cells r.nodes (subst (All (λ o. is_some o ≡ true)) (sym r.processes) h) in
    let enough : length r.nodes ≤ l.size =
      omega (arith, length-map (at l) r.nodes, ap length r.processes, r.size_length) in
    let f = seek-Found l.cells procs p l.size none r.nodes r.seg some_all enough in
    let e =
      subst
        (λ t.
          seek l.size l.cells procs (length_of (procs p)) none t
          ≡ some (last f.before none, first f.behind none))
        (sym r.tail_first) f.found in
    let rep = splice-Rep l (some p) ps r f.before f.behind f.parts in
    (
      splice l (some p) (last f.before none) (first f.behind none),
      ap (λ o. o >>= λ (prev, current). some (splice l (some p) prev current)) e,
      subst (Rep (splice l (some p) (last f.before none) (first f.behind none)))
          (sym f.inserted ∙ ap (insert procs p) r.processes) rep,
    )
