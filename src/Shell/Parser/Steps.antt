-- ===== src/Shell/Parser/Steps.antt =====
-- One turn of the loop of `cmd_parse`, on every kind of token.
use ift.Base.{
  ℕ, suc, ◌≡◌, refl, sym, ◌∙◌, ap, inl, inr, Bool, true, false, Option, List, [], ◌∷◌, ◌++◌, arith,
  take, drop, ◌==◌, if◌then◌else◌, length, map, All, Bool-cases, take-append, drop-append,
}
use mathlib.Core.List.{append-nil}
use ift.Shell.Tokenizer.{
  Category, invalid, symbol, string_literal, semicolon, pipe, logical_and, logical_or, newline,
  Token,
}
use ift.Shell.Parser.{
  Command, attach, is_invalid, is_arg, is_invalid_first_sep, count_arguments, find_op, Outcome,
  done, fault, add_command, parse_from,
}

abbrev pub IsArg : Token → Type 0
IsArg t = is_arg t.category ≡ true

abbrev pub values : List Token → List (Option (List ℕ))
values = map (λ (t : Token). t.value)

-- A list of tokens begins with its arguments.
pub data Split : List Token → Type 0 where
  ended : (args : List Token) → All IsArg args → Split args
  operator :
      (args : List Token) (t : Token) (rest : List Token)
      → All IsArg args
      → is_arg t.category ≡ false
      → Split (args ++ t ∷ rest)

with_arg : (t : Token) (ts : List Token) → IsArg t → Split ts → Split (t ∷ ts)
with_arg t ts y (ended args h) = ended (t ∷ args) (y, h)
with_arg t ts y (operator args u rest h n_arg) = operator (t ∷ args) u rest (y, h) n_arg

pub split : (ts : List Token) → Split ts
split [] = ended [] tt
split (t ∷ ts) = elim (Bool-cases (is_arg t.category)) [
  | inr n_arg ↦ operator [] t ts tt n_arg
  | inl y ↦ with_arg t ts y (split ts)
]

count_arguments-operator :
    (args : List Token) (t : Token) (rest : List Token)
    → All IsArg args
    → is_arg t.category ≡ false
    → count_arguments (args ++ t ∷ rest) ≡ length args
unfolding count_arguments
count_arguments-operator [] t rest h n_arg = rw n_arg refl
count_arguments-operator (a ∷ args) t rest h n_arg =
    let y : is_arg a.category ≡ true = h.0 in
    rw y (ap suc (count_arguments-operator args t rest h.1 n_arg))

count_arguments-ended : (args : List Token) → All IsArg args → count_arguments args ≡ length args
unfolding count_arguments
count_arguments-ended [] h = refl
count_arguments-ended (a ∷ args) h =
    let y : is_arg a.category ≡ true = h.0 in rw y (ap suc (count_arguments-ended args h.1))

IsArg-valid : (k : Category) → is_arg k ≡ true → is_invalid k ≡ false
unfolding is_arg
IsArg-valid symbol e = refl
IsArg-valid string_literal e = refl
IsArg-valid invalid e = cc
IsArg-valid semicolon e = refl
IsArg-valid pipe e = refl
IsArg-valid logical_and e = refl
IsArg-valid logical_or e = refl
IsArg-valid newline e = refl

suc-ne-zero : (n : ℕ) → (suc n == 0) ≡ false
suc-ne-zero n = ground arith

add_command-operator :
    (more : List Command → List Token → Outcome) (cmds : List Command) (args : List Token)
    (t : Token) (rest : List Token)
    → add_command more cmds (length args) (args ++ t ∷ rest)
      ≡ more (cmds ++ record { args = values args; op = find_op t.category } ∷ []) rest
unfolding add_command attach
add_command-operator more cmds args t rest =
    ap (attach more cmds (values (take (length args) (args ++ t ∷ rest))))
      (drop-append args (t ∷ rest) (length args) refl)
    ∙ ap (λ xs. more (cmds ++ record { args = values xs; op = find_op t.category } ∷ []) rest)
        (take-append args (t ∷ rest) (length args) refl)

drop-all : (args : List Token) → drop (length args) args ≡ []
drop-all args =
    ap (drop (length args)) (sym (append-nil args)) ∙ drop-append args [] (length args) refl

add_command-ended :
    (more : List Command → List Token → Outcome) (cmds : List Command) (args : List Token)
    → add_command more cmds (length args) args ≡ fault
unfolding add_command attach
add_command-ended more cmds args =
    ap (attach more cmds (values (take (length args) args))) (drop-all args)

-- a turn that begins with an argument
turn :
    (fuel : ℕ) (cmds : List Command) (a : Token) (ts : List Token) (n : ℕ)
    → IsArg a
    → count_arguments (a ∷ ts) ≡ suc n
    → parse_from (suc fuel) cmds (a ∷ ts) ≡ add_command (parse_from fuel) cmds (suc n) (a ∷ ts)
unfolding parse_from
turn fuel cmds a ts n y e =
    let e2 : (count_arguments (a ∷ ts) == 0) ≡ false = ap (λ k. k == 0) e ∙ suc-ne-zero n in
    rw (IsArg-valid a.category y, e2, e) refl

-- Arguments and an operator are a command.
pub step-command :
    (fuel : ℕ) (cmds : List Command) (a : Token) (args : List Token) (t : Token) (rest : List Token)
    → All IsArg (a ∷ args)
    → is_arg t.category ≡ false
    → parse_from (suc fuel) cmds (a ∷ (args ++ t ∷ rest))
      ≡ parse_from fuel
          (cmds ++ record { args = values (a ∷ args); op = find_op t.category } ∷ [])
          rest
step-command fuel cmds a args t rest h n_arg =
    turn fuel cmds a (args ++ t ∷ rest) (length args) h.0
      (count_arguments-operator (a ∷ args) t rest h n_arg)
    ∙ add_command-operator (parse_from fuel) cmds (a ∷ args) t rest

-- Arguments at the end of the list are a read through NULL.
pub step-ended :
    (fuel : ℕ) (cmds : List Command) (a : Token) (args : List Token)
    → All IsArg (a ∷ args)
    → parse_from (suc fuel) cmds (a ∷ args) ≡ fault
step-ended fuel cmds a args h =
    turn fuel cmds a args (length args) h.0 (count_arguments-ended (a ∷ args) h)
    ∙ add_command-ended (parse_from fuel) cmds (a ∷ args)

-- An operator where a command should begin is skipped, or ends the call with NULL.
abbrev pub is_skipped : Category → Bool
is_skipped semicolon = true
is_skipped newline = true
is_skipped _ = false

no_arguments :
    (t : Token) (ts : List Token) → is_arg t.category ≡ false → count_arguments (t ∷ ts) ≡ 0
unfolding count_arguments
no_arguments t ts n_arg = rw n_arg refl

by_category :
    (skip : Outcome) (k : Category)
    → is_arg k ≡ false
    → (if is_invalid k then done [] else (if is_invalid_first_sep k then done [] else skip))
      ≡ (if is_skipped k then skip else done [])
unfolding is_arg is_invalid_first_sep
by_category skip invalid e = refl
by_category skip symbol e = cc
by_category skip string_literal e = cc
by_category skip semicolon e = refl
by_category skip pipe e = refl
by_category skip logical_and e = refl
by_category skip logical_or e = refl
by_category skip newline e = refl

pub step-operator :
    (fuel : ℕ) (cmds : List Command) (t : Token) (ts : List Token)
    → is_arg t.category ≡ false
    → parse_from (suc fuel) cmds (t ∷ ts)
      ≡ (if is_skipped t.category then parse_from fuel cmds ts else done [])
unfolding parse_from
step-operator fuel cmds t ts n_arg =
    rw (no_arguments t ts n_arg) (by_category (parse_from fuel cmds ts) t.category n_arg)
