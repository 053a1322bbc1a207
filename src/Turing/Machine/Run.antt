-- ===== src/Turing/Machine/Run.antt =====
-- The run of the machine against one on a tape without ends.
use ift.Base.{
  inl, inr, ℕ, zero, suc, ◌+◌, ◌-◌, ◌*◌, ◌/◌, ◌≤◌, ◌≡◌, refl, ◌∙◌, ap, Bool, Option, none, some,
  List, arith, ltb, if◌then◌else◌, length, get_elem?, get_or, get_elem?-eq-get_or, replicate,
  length-write_at, length-replicate, get_or-write_at, get_or-replicate, Bool-cases,
}
use ift.Turing.Machine.{
  Transition, Tape, blank, strcmp, find_transition, apply, Verdict, accepted, rejected,
  no_transition, out_of_fuel, step, tape_length, centered, initial_tape,
}
use ift.Turing.Machine.View.{IsValid, Infinite, Sees, written, moved, get_or-behind}
use ift.Turing.Machine.Move.{apply-Sees}

-- The machine on a tape without ends.
pub infinite_step : ℕ → List Transition → List ℕ → List ℕ → List ℕ → Infinite → Verdict
infinite_step zero transitions accept reject state inf = out_of_fuel
infinite_step (suc fuel) transitions accept reject state inf =
    if strcmp state accept
    then accepted
    else if strcmp state reject
    then rejected
    else elim (find_transition transitions state (inf.right 0)) [
      | none ↦ no_transition
      | some t ↦
          infinite_step fuel transitions accept reject t.next_state
            (moved t.movement (written t.write inf))
    ]

-- what one turn does with the transition that it found
found_same :
    (fuel : ℕ) (ts : List Transition) (accept reject : List ℕ) (tape : Tape) (inf : Infinite)
    → ((state : List ℕ) (tape : Tape) (inf : Infinite)
        → IsValid tape
        → Sees tape inf
        → step fuel ts accept reject state tape ≡ infinite_step fuel ts accept reject state inf)
    → IsValid tape
    → Sees tape inf
    → (o : Option Transition)
    → ◌≡◌ {A = Verdict}
        (elim o [
          | none ↦ no_transition
          | some t ↦ step fuel ts accept reject t.next_state (apply t tape)
        ])
        (elim o [
          | none ↦ no_transition
          | some t ↦
              infinite_step fuel ts accept reject t.next_state
                (moved t.movement (written t.write inf))
        ])
found_same fuel ts accept reject tape inf ih v s none = refl
found_same fuel ts accept reject tape inf ih v s (some t) =
    let (v', s') = apply-Sees t tape inf v s in ih t.next_state (apply t tape) _ v' s'

if_same :
    (b : Bool) (x y z : Verdict)
    → y ≡ z
    → ◌≡◌ {A = Verdict} (if b then x else y) (if b then x else z)
if_same b x y z e = ap (λ v. if b then x else v) e

-- The run on a tape that is resized ends as the run on a tape without ends, to the left and to the
-- right, after as many turns, when the head stands in the tape and sees the same symbols. It never
-- reads behind the tape.
pub step-infinite :
    (fuel : ℕ) (ts : List Transition) (accept reject state : List ℕ) (tape : Tape) (inf : Infinite)
    → IsValid tape
    → Sees tape inf
    → step fuel ts accept reject state tape ≡ infinite_step fuel ts accept reject state inf
unfolding step infinite_step
step-infinite zero ts accept reject state tape inf v s = refl
step-infinite (suc fuel) ts accept reject state tape inf v s =
    let same : get_or tape.cells tape.position blank ≡ inf.right 0 =
      ap (λ i. get_or tape.cells i blank) (omega arith) ∙ s.rights 0 in
    let e : get_elem? tape.cells tape.position ≡ some (inf.right 0) =
      get_elem?-eq-get_or tape.cells tape.position blank v.below ∙ ap some same in
    if_same (strcmp state accept) accepted _ _ (
      if_same (strcmp state reject) rejected _ _ (
        rw e (
          found_same fuel ts accept reject tape inf (step-infinite fuel ts accept reject) v s
            (find_transition ts state (inf.right 0)))))

-- the input on a tape that is blank elsewhere
abbrev pub input_tape : List ℕ → Infinite
input_tape input = record { left = λ n. blank; right = λ n. get_or input n blank }

tape_length-enough : (n : ℕ) → (256 ≤ tape_length n) × (n * 2 ≤ tape_length n)
unfolding tape_length
tape_length-enough n = (ground arith, ground arith)

centered-length : (len : ℕ) (input : List ℕ) → length (centered len input).cells ≡ len
unfolding centered
centered-length len input =
    length-write_at (replicate len blank) (len / 2 - length input / 2) input
    ∙ length-replicate len blank

centered-IsValid :
    (len : ℕ) (input : List ℕ) → 256 ≤ len → length input * 2 ≤ len → IsValid (centered len input)
unfolding centered
centered-IsValid len input le le2 = record {
  above = omega arith;
  below = omega (arith, centered-length len input);
}

centered-Sees :
    (len : ℕ) (input : List ℕ)
    → 256 ≤ len
    → length input * 2 ≤ len
    → Sees (centered len input) (input_tape input)
unfolding centered
centered-Sees len input le le2 =
    let position = len / 2 - length input / 2 in
    let fits : position + length input ≤ length (replicate len blank) =
      omega (arith, length-replicate len blank) in
    let cell = λ (i : ℕ). get_or-write_at (replicate len blank) position input i blank fits in
    record {
      lefts = λ n. elim (Bool-cases (ltb n position)) [
        | inl t ↦
            rw t (
              ground
                (arith, cell (position - 1 - n), get_or-replicate len (position - 1 - n) blank))
        | inr t ↦ rw t refl
      ];
      rights = λ n. elim (Bool-cases (ltb n (length input))) [
        | inl t ↦
            let same : position + n - position ≡ n = omega arith in
            ground (arith, cell (position + n), same)
        | inr t ↦ ground (
          arith,
          cell (position + n),
          get_or-replicate len (position + n) blank,
          get_or-behind input n,
        )
      ];
    }

-- The machine starts in the middle of a tape that is long enough: whatever the input, its run ends as
-- the run on a tape without ends that holds the input, with the head on its first symbol.
pub step-initial_tape :
    (fuel : ℕ) (ts : List Transition) (accept reject state input : List ℕ)
    → step fuel ts accept reject state (initial_tape input)
      ≡ infinite_step fuel ts accept reject state (input_tape input)
unfolding initial_tape
step-initial_tape fuel ts accept reject state input =
    let (le, le2) = tape_length-enough (length input) in
    step-infinite fuel ts accept reject state _ (input_tape input)
      (centered-IsValid (tape_length (length input)) input le le2)
      (centered-Sees (tape_length (length input)) input le le2)
