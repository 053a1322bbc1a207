-- ===== src/Shell/Parser/Print.antt =====
-- Commands that are written as tokens and read back.
use ift.Base.{
  ℕ, zero, suc, ◌<◌, ◌≡◌, refl, sym, ◌∙◌, ap, true, false, List, [], ◌∷◌, ◌++◌, arith, length,
  length-append, map, All,
}
use mathlib.Core.List.{append-nil, append_assoc}
use ift.Shell.Tokenizer.{
  Category, invalid, symbol, string_literal, semicolon, pipe, logical_and, logical_or, newline,
  Token, plain, is_newline,
}
use ift.Shell.Parser.{
  Op, terminator, separator, op_and, op_or, op_pipe, Command, is_arg, is_invalid_first_sep, find_op,
  done, parse_from, cmd_parse,
}
use ift.Shell.Parser.Steps.{IsArg, values, step-command, step-operator, is_skipped}

-- A command as the user wrote it: the arguments and the operator behind them.
pub record Written : Type 0 where
  pub first : Token
  pub others : List Token
  pub op : Op

abbrev pub IsWritten : Written → Type 0
IsWritten w = All IsArg (w.first ∷ w.others)

abbrev pub category_of : Op → Category
category_of terminator = newline
category_of separator = semicolon
category_of op_and = logical_and
category_of op_or = logical_or
category_of op_pipe = pipe

abbrev pub command_of : Written → Command
command_of w = record { args = values (w.first ∷ w.others); op = w.op }

abbrev pub unparse : List Written → List Token → List Token
unparse [] end = end
unparse (w ∷ ws) end = w.first ∷ (w.others ++ plain (category_of w.op) ∷ unparse ws end)

is_arg-category_of : (op : Op) → is_arg (category_of op) ≡ false
unfolding is_arg
is_arg-category_of terminator = refl
is_arg-category_of separator = refl
is_arg-category_of op_and = refl
is_arg-category_of op_or = refl
is_arg-category_of op_pipe = refl

find_op-category_of : (op : Op) → find_op (category_of op) ≡ op
unfolding find_op
find_op-category_of terminator = refl
find_op-category_of separator = refl
find_op-category_of op_and = refl
find_op-category_of op_or = refl
find_op-category_of op_pipe = refl

-- The loop goes through the written commands, and there is fuel left for the rest.
parse_from-unparse :
    (fuel : ℕ) (cmds : List Command) (ws : List Written) (end : List Token)
    → All IsWritten ws
    → length (unparse ws end) < fuel
    → (left : ℕ) × (length end < suc left)
      × (parse_from fuel cmds (unparse ws end)
          ≡ parse_from (suc left) (cmds ++ map command_of ws) end)
parse_from-unparse zero cmds ws end h lt = absurd (omega arith)
parse_from-unparse (suc fuel) cmds [] end h lt =
    (fuel, lt, ap (λ l. parse_from (suc fuel) l end) (sym (append-nil cmds)))
parse_from-unparse (suc fuel) cmds (w ∷ ws) end h lt =
    let len = length-append w.others (plain (category_of w.op) ∷ unparse ws end) in
    let (left, le, e) =
      parse_from-unparse fuel (cmds ++ command_of w ∷ []) ws end h.1 (omega (arith, len)) in
    (
      left,
      le,
      step-command fuel cmds w.first w.others (plain (category_of w.op)) (unparse ws end) h.0
            (is_arg-category_of w.op)
          ∙ ap
              (λ o.
                parse_from fuel (cmds ++ record { args = values (w.first ∷ w.others); op = o } ∷ [])
                  (unparse ws end))
              (find_op-category_of w.op)
          ∙ e
          ∙ ap (λ l. parse_from (suc left) l end)
              (append_assoc cmds (command_of w ∷ []) (map command_of ws)),
    )

first_sep : (k : Category) → is_arg k ≡ true → is_invalid_first_sep k ≡ false
unfolding is_arg is_invalid_first_sep
first_sep symbol e = refl
first_sep string_literal e = refl
first_sep invalid e = refl
first_sep semicolon e = refl
first_sep newline e = refl
first_sep pipe e = cc
first_sep logical_and e = cc
first_sep logical_or e = cc

no_newline : (k : Category) → is_arg k ≡ true → is_newline k ≡ false
unfolding is_arg
no_newline symbol e = refl
no_newline string_literal e = refl
no_newline invalid e = refl
no_newline semicolon e = refl
no_newline newline e = cc
no_newline pipe e = refl
no_newline logical_and e = refl
no_newline logical_or e = refl

starts :
    (a : Token) (ts : List Token)
    → IsArg a
    → cmd_parse (a ∷ ts) ≡ parse_from (suc (suc (length ts))) [] (a ∷ ts)
unfolding cmd_parse
starts a ts y = rw (first_sep a.category y, no_newline a.category y) refl

through :
    (w : Written) (ws : List Written) (end : List Token)
    → All IsWritten (w ∷ ws)
    → (left : ℕ) × (length end < suc left)
      × (cmd_parse (unparse (w ∷ ws) end) ≡ parse_from (suc left) (map command_of (w ∷ ws)) end)
through w ws end h =
    let (left, le, e) = parse_from-unparse _ [] (w ∷ ws) end h (omega arith) in
    (left, le, starts w.first (w.others ++ plain (category_of w.op) ∷ unparse ws end) h.0.0 ∙ e)

-- Commands that are written as tokens, each with one argument at least and its operator behind it,
-- are parsed to those commands, in order.
pub cmd_parse-unparse :
    (w : Written) (ws : List Written)
    → All IsWritten (w ∷ ws)
    → cmd_parse (unparse (w ∷ ws) []) ≡ done (map command_of (w ∷ ws))
unfolding parse_from
cmd_parse-unparse w ws h = let (left, le, e) = through w ws [] h in e

-- Behind written commands, a pipe, `&&`, `||` or an invalid token in the place of an argument makes
-- `cmd_parse` return NULL, whatever follows.
pub cmd_parse-refuses :
    (w : Written) (ws : List Written) (t : Token) (rest : List Token)
    → All IsWritten (w ∷ ws)
    → is_arg t.category ≡ false
    → is_skipped t.category ≡ false
    → cmd_parse (unparse (w ∷ ws) (t ∷ rest)) ≡ done []
cmd_parse-refuses w ws t rest h n_arg e =
    let (left, le, e2) = through w ws (t ∷ rest) h in
    e2 ∙ step-operator left _ t rest n_arg ∙ rw e refl
