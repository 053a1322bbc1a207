-- ===== src/Shell/Parser.antt =====
-- tp1/src/parser.c and parser.h: a list of tokens becomes a list of commands. `malloc` is taken to
-- succeed. A list of commands that is NULL is the empty list.
mod Tests
pub mod Steps
pub mod Total
pub mod Print
use ift.Base.{
  ℕ, zero, suc, ◌+◌, Bool, true, false, not, ◌||◌, Option, none, some, List, [], ◌∷◌, ◌++◌, take,
  drop, ◌==◌, if◌then◌else◌, length, map,
}
use ift.Shell.Tokenizer.{
  Category, invalid, symbol, string_literal, semicolon, pipe, logical_and, logical_or, newline,
  Token, is_newline,
}

-- `enum op`
pub data Op : Type 0 where
  terminator separator op_and op_or op_pipe : Op

-- `struct command`; a NULL among the arguments is `none`, the NULL behind the last one is left out.
pub record Command : Type 0 where
  pub args : List (Option (List ℕ))
  pub op : Op

unfoldable pub is_arg : Category → Bool
is_arg symbol = true
is_arg string_literal = true
is_arg _ = false

unfoldable pub is_invalid_first_sep : Category → Bool
is_invalid_first_sep pipe = true
is_invalid_first_sep logical_and = true
is_invalid_first_sep logical_or = true
is_invalid_first_sep _ = false

pub count_arguments : List Token → ℕ
unfolding is_arg
count_arguments [] = 0
count_arguments (t ∷ ts) = let n = count_arguments ts in if is_arg t.category then suc n else 0

-- The default case returns EXIT_FAILURE, which is 1, the number of OP_SEPARATOR.
unfoldable pub find_op : Category → Op
find_op semicolon = separator
find_op pipe = op_pipe
find_op logical_and = op_and
find_op logical_or = op_or
find_op newline = terminator
find_op _ = separator

-- How a call of `cmd_parse` ends: it returns, it reads through a NULL, or the fuel is gone.
pub data Outcome : Type 0 where
  done : List Command → Outcome
  fault : Outcome
  out_of_fuel : Outcome

abbrev pub is_invalid : Category → Bool
is_invalid invalid = true
is_invalid _ = false

-- The arguments of a command are known; `find_op` reads the token behind them. `more` is the rest
-- of the loop, given the commands so far.
pub attach :
    (List Command → List Token → Outcome)
    → List Command
    → List (Option (List ℕ))
    → List Token
    → Outcome
unfolding find_op
attach more commands args [] = fault
attach more commands args (t ∷ rest) =
    more (commands ++ record { args = args; op = find_op t.category } ∷ []) rest

-- one command with `n` arguments
pub add_command : (List Command → List Token → Outcome) → List Command → ℕ → List Token → Outcome
unfolding attach
add_command more commands n tokens =
    attach more commands (map (λ (t : Token). t.value) (take n tokens)) (drop n tokens)

-- The loop of `cmd_parse`; `commands` is the list behind the sentinel.
pub parse_from : ℕ → List Command → List Token → Outcome
unfolding add_command count_arguments
parse_from zero commands tokens = out_of_fuel
parse_from (suc fuel) commands [] = done commands
parse_from (suc fuel) commands (t ∷ ts) =
    let skip = parse_from fuel commands ts in
    if is_invalid t.category
    then done []
    else if count_arguments (t ∷ ts) == 0
    then (if is_invalid_first_sep t.category then done [] else skip)
    else add_command (parse_from fuel) commands (count_arguments (t ∷ ts)) (t ∷ ts)

-- Each turn of the loop takes a token at least.
pub cmd_parse : List Token → Outcome
unfolding parse_from is_invalid_first_sep
cmd_parse [] = fault
cmd_parse (t ∷ ts) =
    if is_invalid_first_sep t.category
    then done []
    else if is_newline t.category
    then done []
    else parse_from (suc (suc (length ts))) [] (t ∷ ts)
