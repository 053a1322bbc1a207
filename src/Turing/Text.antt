-- ===== src/Turing/Text.antt =====
-- tp0/src/main.c: the text of a machine. A file is the list of its bytes; `malloc` is taken to
-- succeed. No result is a read or a write behind a buffer.
mod Tests
pub mod Print
pub mod Lines
use ift.Base.{
  ℕ, zero, suc, ◌+◌, ◌-◌, Bool, true, false, Option, none, some, List, [], ◌∷◌, ◌++◌, ltb, leb,
  ◌==◌, if◌then◌else◌, length, drop, ◌>>=◌,
}
use ift.Turing.Machine.{Movement, backward, stay, forward, Transition, Verdict, step, initial_tape}

-- The loop of `no_of_lines`, and the line without a newline at the end.
pub lines_from : ℕ → List ℕ → ℕ
lines_from previous [] = if previous == b'\n' then 0 else 1
lines_from previous (c ∷ cs) = let rest = lines_from c cs in if c == b'\n' then suc rest else rest

pub no_of_lines : List ℕ → ℕ
unfolding lines_from
no_of_lines file = lines_from b'\n' file

-- The loop of `readline`, which takes a byte before it tests the length: the number of bytes that may
-- still be read, the line, and the rest of the file. The NUL of a line of `max_len + 1` bytes is
-- written behind the buffer.
pub line_from : ℕ → List ℕ → Option (List ℕ × List ℕ)
line_from zero [] = none
line_from zero (c ∷ cs) = none
line_from (suc left) [] = some ([], [])
line_from (suc left) (c ∷ cs) =
    let more = line_from left cs >>= λ (line, rest). some (c ∷ line, rest) in
    if c == b'\n' then some ([], cs) else more

pub readline : List ℕ → ℕ → Option (List ℕ × List ℕ)
unfolding line_from
readline file max_len = line_from (max_len + 1) file

-- the loop of `read_state`, on the rest of the line
pub state_from : ℕ → List ℕ → Option (List ℕ × List ℕ)
state_from left [] = none
state_from zero (c ∷ cs) = some ([], c ∷ cs)
state_from (suc left) (c ∷ cs) =
    let more = state_from left cs >>= λ (state, rest). some (c ∷ state, rest) in
    if c == b',' then some ([], c ∷ cs) else more

pub read_state : List ℕ → Option (List ℕ × List ℕ)
unfolding state_from
read_state line = state_from 5 line >>= λ (state, rest). some (state, drop 1 rest)

-- `line[p++]`
abbrev pub next_byte : List ℕ → Option (ℕ × List ℕ)
next_byte [] = none
next_byte (c ∷ cs) = some (c, cs)

-- `parse_movement` without its reading; `none` is the result 2.
unfoldable pub parse_movement : ℕ → Option Movement
parse_movement c =
    if c == b'G'
    then some backward
    else if c == b'R'
    then some stay
    else if c == b'D'
    then some forward
    else none

-- the end of `parse_line`: `p > len` says that the NUL of the line was read
abbrev pub transition_from : List ℕ → ℕ → List ℕ → ℕ → Option Movement → List ℕ → Option Transition
transition_from current read next write none rest = none
transition_from current read next write (some m) [] = none
transition_from current read next write (some m) (c ∷ rest) = some (record {
  current_state = current;
  next_state = next;
  movement = m;
  read = read;
  write = write;
})

pub parse_line : List ℕ → Option (Option Transition)
unfolding read_state
parse_line line = do
  (current, s) ← read_state (drop 1 (line ++ 0 ∷ []))
  (read, s2) ← next_byte s
  (next, s3) ← read_state (drop 4 s2)
  (write, s4) ← next_byte s3
  (movement, s5) ← next_byte (drop 1 s4)
  some (transition_from current read next write (parse_movement movement) s5)

-- the part of a line before its first NUL
pub c_string : List ℕ → List ℕ
c_string [] = []
c_string (c ∷ s) = let rest = c_string s in if c == 0 then [] else c ∷ rest

-- the body of the loop of `get_transitions`
pub read_transition : List ℕ → Option (Option Transition × List ℕ)
read_transition file = do
  (line, rest) ← readline file 1024
  t ← parse_line (c_string line)
  some (t, rest)

-- what the loop does with a line; `ts` are the transitions of the rest of the file
abbrev pub collect :
    Option Transition → Option (Option (List Transition)) → Option (Option (List Transition))
collect none ts = some none
collect (some t) ts = ts >>= λ o. some (elim o [ none ↦ none | some ts ↦ some (t ∷ ts) ])

-- `get_transitions`; `some none` is NULL.
pub get_transitions : ℕ → List ℕ → Option (Option (List Transition))
get_transitions zero file = some (some [])
get_transitions (suc n) file =
    read_transition file >>= λ (t, rest). collect t (get_transitions n rest)

-- `execute` behind the reading of the states and of the transitions
pub run : ℕ → List ℕ → List ℕ → List ℕ → List ℕ → List Transition → Verdict
run fuel input initial accept reject ts =
    step fuel ts (c_string accept) (c_string reject) (c_string initial) (initial_tape input)

abbrev pub finish : (List Transition → Verdict) → Option (List Transition) → Option Verdict
finish f none = none
finish f (some ts) = some (f ts)

-- `num_lines - 3` transitions
pub transitions_of : ℕ → List ℕ → Option (Option (List Transition))
transitions_of num_lines file =
    if ltb num_lines 3 then none else get_transitions (num_lines - 3) file

-- `execute`, on a file of three lines at least; `some none` is ERROR for a line that is no
-- transition. The fuel bounds the turns of the machine.
pub execute : ℕ → List ℕ → List ℕ → Option (Option Verdict)
execute fuel file input = do
  (initial, f1) ← readline file 5
  (accept, f2) ← readline f1 5
  (reject, f3) ← readline f2 5
  ts ← transitions_of (no_of_lines file) f3
  some (finish (run fuel input initial accept reject) ts)
