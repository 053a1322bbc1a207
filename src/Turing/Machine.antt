-- ===== src/Turing/Machine.antt =====
-- tp0/src/main.c: the tape and the run of the machine. `malloc` is taken to succeed, and the length
-- of the tape not to leave the range of an `int`.
pub mod View
pub mod Move
pub mod Run
use ift.Base.{
  ℕ, zero, suc, ◌+◌, ◌-◌, ◌*◌, ◌/◌, Bool, true, false, not, ◌&&◌, ◌||◌, Option, none, some, List,
  [], ◌∷◌, ltb, leb, ◌==◌, if◌then◌else◌, length, get_elem?, get_or, set, replicate, write_at,
  ◌>>=◌,
}

-- `strcmp(...) == 0`: a string ends at its first NUL.
pub strcmp : List ℕ → List ℕ → Bool
strcmp [] [] = true
strcmp [] (c2 ∷ p2) = 0 == c2
strcmp (c1 ∷ p1) [] = c1 == 0
strcmp (c1 ∷ p1) (c2 ∷ p2) =
    let rest = strcmp p1 p2 in if c1 == 0 then c1 == c2 else if c1 == c2 then rest else false

-- The movements -1, 0 and 1.
pub data Movement : Type 0 where
  backward stay forward : Movement

-- `transition`
pub record Transition : Type 0 where
  pub current_state : List ℕ
  pub next_state : List ℕ
  pub movement : Movement
  pub read : ℕ
  pub write : ℕ

pub record Tape : Type 0 where
  pub cells : List ℕ
  pub position : ℕ

abbrev pub blank : ℕ
blank = b' '

-- the loop of `step` that looks for a transition
pub find_transition : List Transition → List ℕ → ℕ → Option Transition
unfolding strcmp
find_transition [] state symbol = none
find_transition (t ∷ ts) state symbol =
    let rest = find_transition ts state symbol in
    if strcmp t.current_state state && t.read == symbol then some t else rest

-- `position += movement`. The result is one more than the position, which may be -1.
abbrev pub advance : Movement → ℕ → ℕ
advance backward position = position
advance stay position = position + 1
advance forward position = position + 2

-- `resize_tape`, at one more than the position; `memcpy2` copies the old tape.
unfoldable pub resize_tape : List ℕ → ℕ → Tape
resize_tape cells above =
    let tape_offset = length cells / 2 in
    record {
      cells = write_at (replicate (length cells * 2) blank) tape_offset cells;
      position = tape_offset + above - 1;
    }

-- What `step` does with the tape in one turn of its loop.
pub apply : Transition → Tape → Tape
unfolding resize_tape
apply t tape =
    let cells = set tape.cells tape.position t.write in
    let above = advance t.movement tape.position in
    if leb above 1 || ltb (length cells) above
    then resize_tape cells above
    else record { cells = cells; position = above - 1 }

-- How `step` ends: 1, 0, ERROR, a read behind the tape, or the end of the fuel.
pub data Verdict : Type 0 where
  accepted rejected no_transition fault out_of_fuel : Verdict

pub step : ℕ → List Transition → List ℕ → List ℕ → List ℕ → Tape → Verdict
unfolding strcmp find_transition apply
step zero transitions accept reject state tape = out_of_fuel
step (suc fuel) transitions accept reject state tape =
    if strcmp state accept
    then accepted
    else if strcmp state reject
    then rejected
    else elim (get_elem? tape.cells tape.position) [
      | none ↦ fault
      | some symbol ↦ elim (find_transition transitions state symbol) [
        | none ↦ no_transition
        | some t ↦ step fuel transitions accept reject t.next_state (apply t tape)
      ]
    ]

-- The length of the tape of `execute`, and the tape with the input in its middle.
pub tape_length : ℕ → ℕ
tape_length input_length = if ltb (input_length * 2) 256 then 256 else input_length * 2

pub centered : ℕ → List ℕ → Tape
centered tape_length input =
    let position = tape_length / 2 - length input / 2 in
    record { cells = write_at (replicate tape_length blank) position input; position = position }

pub initial_tape : List ℕ → Tape
unfolding tape_length centered
initial_tape input = centered (tape_length (length input)) input
