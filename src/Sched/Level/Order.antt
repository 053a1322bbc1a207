-- ===== src/Sched/Level/Order.antt =====
-- The order of a level: from the tail to the head, no process is longer than one before it.
use ift.Base.{
  inl, inr, ℕ, ◌≤◌, ◌≡◌, true, false, Option, none, some, List, [], ◌∷◌, arith, All, AllPairs,
  All-mono, Bool-cases,
}
use ift.Sched.Process.{Processes, length_of}
use ift.Sched.Level.Push.{insert, is_shorter}

abbrev pub key : Processes → Option ℕ → ℕ
key procs none = 0
key procs (some p) = length_of (procs p)

abbrev pub IsSorted : Processes → List (Option ℕ) → Type 0
IsSorted procs = AllPairs (λ a b. key procs b ≤ key procs a)

-- no poison pills
abbrev pub IsProcess : Option ℕ → Type 0
IsProcess none = ⊥
IsProcess (some p) = Unit

insert-All :
    (procs : Processes) (p bound : ℕ) (qs : List (Option ℕ))
    → length_of (procs p) ≤ bound
    → All (λ b. key procs b ≤ bound) qs
    → All (λ b. key procs b ≤ bound) (insert procs p qs)
unfolding insert
insert-All procs p bound [] le h = (le, tt)
insert-All procs p bound (q ∷ qs) le h =
    elim (Bool-cases (is_shorter procs (length_of (procs p)) q)) [
      | inl t ↦ rw t (le, h)
      | inr t ↦ rw t (h.0, insert-All procs p bound qs le h.1)
    ]

shorter-le :
    (procs : Processes) (k : ℕ) (q : Option ℕ) → is_shorter procs k q ≡ true → key procs q ≤ k
shorter-le procs k none e = absurd (cc e)
shorter-le procs k (some q) e = ground arith

longer-le :
    (procs : Processes) (k : ℕ) (q : Option ℕ)
    → IsProcess q
    → is_shorter procs k q ≡ false
    → k ≤ key procs q
longer-le procs k none n e = absurd n
longer-le procs k (some q) n e = ground arith

-- A sorted level without poison pills stays sorted when a process is inserted.
pub insert-IsSorted :
    (procs : Processes) (p : ℕ) (qs : List (Option ℕ))
    → All IsProcess qs
    → IsSorted procs qs
    → IsSorted procs (insert procs p qs)
unfolding insert
insert-IsSorted procs p [] n s = (tt, tt)
insert-IsSorted procs p (q ∷ qs) n s =
    elim (Bool-cases (is_shorter procs (length_of (procs p)) q)) [
      | inl t ↦
          let le = shorter-le procs (length_of (procs p)) q t in
          rw t ((le, All-mono _ _ qs (λ b h. omega arith) s.0), s)
      | inr t ↦
          let le = longer-le procs (length_of (procs p)) q n.0 t in
          rw t (insert-All procs p (key procs q) qs le s.0, insert-IsSorted procs p qs n.1 s.1)
    ]
