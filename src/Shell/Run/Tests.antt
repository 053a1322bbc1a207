-- ===== src/Shell/Run/Tests.antt =====
-- Lines that the shell runs.
use ift.Base.{
  ℕ, ◌≡◌, ◌≢◌, refl, false, none, some, List, [], ◌∷◌, ◌++◌, map, All, arith, ◌==◌, if◌then◌else◌,
}
use ift.Shell.Chars.{is_symbol_char, is_whitespace, is_operator, is_terminator}
use ift.Shell.Tokenizer.{plain, symbol, newline}
use ift.Shell.Tokenizer.Print.{
  Word, sym_word, and_and, spell, token_of, IsWritable, tok_next_line-spell,
}
use ift.Shell.Parser.{terminator, op_and, is_arg}
use ift.Shell.Parser.Print.{Written, command_of}
use ift.Shell.Run.{Child, Launched, ended, finished, success, faults, sh_run, after_run, turn}
use ift.Shell.Run.Pipelines.{Args, then_unless, then_if, Rest, commands_of, run_line, sh_run-line}
use ift.Shell.Run.Turn.{turn-line, turn-safe}

-- The state is the list of the children so far, the last one first. A command whose first argument
-- begins with an `f` fails.
abbrev log_launch : Child → List Child → Launched × List Child
log_launch child log = (
  ended
      (elim child.args [
        | [] ↦ 0
        | name ∷ others ↦ elim name [
          | none ↦ 0
          | some s ↦ elim s [ [] ↦ 0 | c ∷ cs ↦ if c == b'f' then 1 else 0 ]
        ]
      ])
      3,
  child ∷ log,
)

abbrev one : ℕ → Args
one c = some (c ∷ []) ∷ []

-- `f && a | b || c`
abbrev rest : Rest
rest =
    (then_if, record { first = one b'a'; others = one b'b' ∷ [] })
    ∷ (then_unless, record { first = one b'c'; others = [] })
    ∷ []

sh_run-line_example :
    sh_run log_launch (commands_of (record { first = one b'f'; others = [] }) rest terminator) []
    ≡ run_line log_launch (record { first = one b'f'; others = [] }) rest terminator []
sh_run-line_example = sh_run-line log_launch (b'f' ∷ []) [] [] rest terminator []

-- The third command alone is run behind the first.
sh_run-skips :
    sh_run log_launch (commands_of (record { first = one b'f'; others = [] }) rest terminator) []
    ≡ finished success (
        record { args = one b'c'; stdin = none; to_pipe = false }
        ∷ record { args = one b'f'; stdin = none; to_pipe = false }
        ∷ [])
unfolding sh_run
sh_run-skips = refl

-- `f && c` and a newline
abbrev words : List Word
words = sym_word b'f' [] ∷ and_and ∷ sym_word b'c' [] ∷ []

abbrev first : Written
first = record {
  first = record { category = symbol; value = some (b'f' ∷ []) };
  others = [];
  op = op_and;
}

abbrev second : Written
second = record {
  first = record { category = symbol; value = some (b'c' ∷ []) };
  others = [];
  op = terminator;
}

words-IsWritable : All IsWritable words
unfolding is_symbol_char is_whitespace is_operator is_terminator
words-IsWritable = (
  (refl, (λ e. absurd (omega arith)), (λ e. absurd (omega arith)), tt),
  (tt, ((refl, (λ e. absurd (omega arith)), (λ e. absurd (omega arith)), tt), tt)),
)

turn-line_example :
    turn log_launch (spell words (b'\n' ∷ [])) []
    ≡ after_run [] (sh_run log_launch (map command_of (first ∷ second ∷ [])) [])
unfolding is_arg
turn-line_example =
    turn-line log_launch words [] first (second ∷ []) [] words-IsWritable
      ((refl, tt), ((refl, tt), tt)) refl

turn-safe_example : turn log_launch (spell words (b'\n' ∷ [])) [] ≢ faults
unfolding is_arg
turn-safe_example =
    turn-safe log_launch (spell words (b'\n' ∷ [])) (map token_of words ++ plain newline ∷ []) [] []
      (tok_next_line-spell words [] words-IsWritable) refl
