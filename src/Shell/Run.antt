-- ===== src/Shell/Run.antt =====
-- tp1/src/shell.c: the commands of a line are executed. The system calls are a parameter: `launch`
-- stands for `pipe`, `fork`, `execvp` and `waitpid` of one command, on a state `W` outside the
-- shell. The closing of descriptors is left out.
mod Tests
pub mod Pipelines
pub mod Turn
use ift.Base.{
  ℕ, zero, suc, Bool, true, false, not, ◌&&◌, ◌||◌, Option, none, some, List, [], ◌∷◌, ◌++◌, ◌==◌,
  if◌then◌else◌,
}
use ift.Shell.Tokenizer.{Token, tok_next_line}
use ift.Shell.Parser.{
  Op, terminator, separator, op_and, op_or, op_pipe, Command, Outcome, done, fault, out_of_fuel,
  cmd_parse,
}

-- EXECUTION_FAILED, EXECUTION_SUCCESS, EXECUTION_REQUEST_EXIT
pub data Result : Type 0 where
  failed success request_exit : Result

-- What the child process gets: its arguments, the descriptor that is its standard input, if it is
-- not the shell's, and whether its standard output is the new pipe.
pub record Child : Type 0 where
  pub args : List (Option (List ℕ))
  pub stdin : Option ℕ
  pub to_pipe : Bool

-- How the system calls end: `pipe` failed, `fork` failed, or the child ended with a status; the
-- read end of the pipe.
pub data Launched : Type 0 where
  pipe_failed fork_failed : Launched
  ended : ℕ → ℕ → Launched

abbrev pub Launch : Type 0 → Type 0
Launch W = Child → W → Launched × W

-- How `execute_command` ends: it returns, with the new `*is_skipping` and `*previous_pipe_output`,
-- or the shell exits, or `strcmp` reads through a NULL.
pub data Reply (W : Type 0) : Type 0 where
  returned : Result → Bool → ℕ → W → Reply W
  exited : W → Reply W
  null_argument : Reply W

pub data Final (W : Type 0) : Type 0 where
  finished : Result → W → Final W
  shell_exited : W → Final W
  null_read : Final W

unfoldable pub is_skipped_op : Op → Bool
is_skipped_op op_and = false
is_skipped_op op_or = false
is_skipped_op separator = false
is_skipped_op _ = true

abbrev pub is_pipe : Op → Bool
is_pipe op_pipe = true
is_pipe _ = false

-- the first condition of `execute_command`
pub short_circuits : Op → Result → Bool
short_circuits op_and failed = true
short_circuits op_or success = true
short_circuits _ _ = false

-- `strcmp(..., ...) == 0`: a string ends at its first NUL.
pub same_string : List ℕ → List ℕ → Bool
same_string [] [] = true
same_string [] (y ∷ ys) = y == 0
same_string (x ∷ xs) [] = x == 0
same_string (x ∷ xs) (y ∷ ys) =
    let rest = same_string xs ys in if x == y then (if x == 0 then true else rest) else false

abbrev pub exit_string : List ℕ
exit_string = b'e' ∷ b'x' ∷ b'i' ∷ b't' ∷ []

unfoldable pub of_launched : {W : Type 0} → ℕ → Launched × W → Reply W
of_launched fd (pipe_failed, w) = exited w
of_launched fd (fork_failed, w) = returned failed false fd w
of_launched fd (ended status read_end, w) =
    returned (if status == 0 then success else failed) false read_end w

-- `execute_command` behind its guards
pub run_command : {W : Type 0} → Launch W → Command → Bool → ℕ → W → Reply W
unfolding of_launched same_string
run_command launch c from_pipe fd w = elim c.args [
  | [] ↦ null_argument
  | name ∷ others ↦ elim name [
    | none ↦ null_argument
    | some s ↦
        if same_string s exit_string
        then returned request_exit false fd w
        else of_launched fd (
            launch
              (record {
                args = c.args;
                stdin = if from_pipe then some fd else none;
                to_pipe = is_pipe c.op;
              })
              w)
  ]
]

pub execute_command : {W : Type 0} → Launch W → Command → Op → Result → Bool → ℕ → W → Reply W
unfolding short_circuits is_skipped_op run_command
execute_command launch c previous_op previous_result is_skipping fd w =
    if short_circuits previous_op previous_result
    then returned previous_result true fd w
    else if is_skipping && is_skipped_op previous_op
    then returned previous_result is_skipping fd w
    else run_command launch c (is_pipe previous_op) fd w

-- what the loop of `sh_run` does with a reply; `next` is the rest of the loop
unfoldable pub proceed : {W : Type 0} → (Result → Bool → ℕ → W → Final W) → Reply W → Final W
proceed next (returned request_exit is_skipping fd w) = finished request_exit w
proceed next (returned failed is_skipping fd w) = next failed is_skipping fd w
proceed next (returned success is_skipping fd w) = next success is_skipping fd w
proceed next (exited w) = shell_exited w
proceed next null_argument = null_read

-- the loop of `sh_run`
pub run_from : {W : Type 0} → Launch W → List Command → Op → Result → Bool → ℕ → W → Final W
unfolding execute_command proceed
run_from launch [] previous_op r is_skipping fd w = finished success w
run_from launch (c ∷ cs) previous_op r is_skipping fd w =
    proceed (run_from launch cs c.op) (execute_command launch c previous_op r is_skipping fd w)

-- The first `previous_op` is `(enum op) NULL`, which is OP_TERMINATOR; descriptor 0 is the standard
-- input.
pub sh_run : {W : Type 0} → Launch W → List Command → W → Final W
unfolding run_from
sh_run launch [] w = finished failed w
sh_run launch (c ∷ cs) w =
    let run = run_from launch (c ∷ cs) terminator success false 0 w in
    elim c.args [
      | [] ↦ finished failed w
      | name ∷ others ↦ elim name [ none ↦ finished failed w | some s ↦ run ]
    ]

-- One turn of the loop of `main`: it goes on with the rest of the input, or the shell ends, or it
-- reads through a NULL.
pub data Turned (W : Type 0) : Type 0 where
  goes_on : List ℕ → W → Turned W
  ends : W → Turned W
  faults : Turned W

pub after_run : {W : Type 0} → List ℕ → Final W → Turned W
after_run rest (finished request_exit w) = ends w
after_run rest (finished failed w) = goes_on rest w
after_run rest (finished success w) = goes_on rest w
after_run rest (shell_exited w) = ends w
after_run rest null_read = faults

pub after_parse : {W : Type 0} → Launch W → List ℕ → W → Outcome → Turned W
unfolding after_run sh_run
after_parse launch rest w (done []) = goes_on rest w
after_parse launch rest w (done (c ∷ cs)) = after_run rest (sh_run launch (c ∷ cs) w)
after_parse launch rest w fault = faults
after_parse launch rest w out_of_fuel = faults

pub after_read : {W : Type 0} → Launch W → W → Option (List Token × List ℕ) → Turned W
unfolding after_parse
after_read launch w none = faults
after_read launch w (some ([], rest)) = goes_on rest w
after_read launch w (some (t ∷ ts, rest)) = after_parse launch rest w (cmd_parse (t ∷ ts))

pub turn : {W : Type 0} → Launch W → List ℕ → W → Turned W
unfolding after_read
turn launch input w = after_read launch w (tok_next_line input)
