-- ===== src/Shell/Parser/Total.antt =====
-- What `cmd_parse` returns on every list of tokens.
use ift.Base.{
  ℕ, zero, suc, ◌<◌, ◌≡◌, ◌≢◌, inl, inr, Bool, true, false, is_some, List, [], ◌∷◌, ◌++◌, arith,
  if◌then◌else◌, length, length-append, All, All-append, Bool-cases,
}
use ift.Shell.Tokenizer.{Token, is_newline}
use ift.Shell.Tokenizer.Values.{HasValue}
use ift.Shell.Parser.{
  Command, is_arg, is_invalid_first_sep, find_op, Outcome, done, fault, out_of_fuel, parse_from,
  cmd_parse,
}
use ift.Shell.Parser.Steps.{
  IsArg, values, Split, ended, operator, split, step-command, step-ended, step-operator, is_skipped,
}

-- There is a first argument, and none is NULL.
abbrev pub IsRunnable : Command → Type 0
IsRunnable c = (c.args ≢ []) × All (λ a. is_some a ≡ true) c.args

abbrev pub Sound : Type 0 → Outcome → Type 0
Sound P (done commands) = All IsRunnable commands
Sound P fault = P
Sound P out_of_fuel = ⊥

abbrev pub last_is_arg : List Token → Bool
last_is_arg [] = false
last_is_arg (t ∷ []) = is_arg t.category
last_is_arg (t ∷ u ∷ ts) = last_is_arg (u ∷ ts)

last-cons : (t : Token) (ts : List Token) → last_is_arg ts ≡ true → last_is_arg (t ∷ ts) ≡ true
last-cons t [] e = cc
last-cons t (u ∷ ts) e = e

last-append : (xs rest : List Token) → last_is_arg rest ≡ true → last_is_arg (xs ++ rest) ≡ true
last-append [] rest e = e
last-append (x ∷ xs) rest e = last-cons x (xs ++ rest) (last-append xs rest e)

last-All : (a : Token) (args : List Token) → All IsArg (a ∷ args) → last_is_arg (a ∷ args) ≡ true
last-All a [] h = h.0
last-All a (b ∷ args) h = last-All b args h.1

values-All :
    (args : List Token)
    → All IsArg args
    → All HasValue args
    → All (λ a. is_some a ≡ true) (values args)
values-All [] h v = tt
values-All (a ∷ args) h v =
    (elim v.0 [ inl e ↦ absurd (cc (h.0, e)) | inr e ↦ e ], values-All args h.1 v.1)

All-suffix :
    (xs : List Token) (t : Token) (rest : List Token)
    → All HasValue (xs ++ t ∷ rest)
    → All HasValue xs × All HasValue rest
All-suffix [] t rest h = (tt, h.1)
All-suffix (x ∷ xs) t rest h = let (l, r) = All-suffix xs t rest h.1 in ((h.0, l), r)

-- the induction hypothesis for the rest of the loop
abbrev Ih : Type 0 → ℕ → Type 0
Ih P fuel =
    (cmds : List Command) (ts : List Token)
    → length ts < fuel
    → All IsRunnable cmds
    → All HasValue ts
    → (last_is_arg ts ≡ true → P)
    → Sound P (parse_from fuel cmds ts)

add-IsRunnable :
    (cmds : List Command) (a : Token) (args : List Token) (t : Token)
    → All IsRunnable cmds
    → All IsArg (a ∷ args)
    → All HasValue (a ∷ args)
    → All IsRunnable (cmds ++ record { args = values (a ∷ args); op = find_op t.category } ∷ [])
add-IsRunnable cmds a args t r h v =
    All-append IsRunnable cmds _ r (((λ e. cc e), values-All (a ∷ args) h v), tt)

Sound-Split :
    (P : Type 0) (fuel : ℕ) (cmds : List Command) (ts : List Token)
    → Ih P fuel
    → Split ts
    → length ts < suc fuel
    → All IsRunnable cmds
    → All HasValue ts
    → (last_is_arg ts ≡ true → P)
    → Sound P (parse_from (suc fuel) cmds ts)
unfolding parse_from
Sound-Split P fuel cmds ts ih (ended [] h) lt r v p = r
Sound-Split P fuel cmds ts ih (ended (a ∷ args) h) lt r v p =
    rw (step-ended fuel cmds a args h) (p (last-All a args h))
Sound-Split P fuel cmds ts ih (operator [] t rest h n_arg) lt r v p =
    rw (step-operator fuel cmds t rest n_arg) (elim (Bool-cases (is_skipped t.category)) [
      | inl e ↦ rw e (ih cmds rest (omega arith) r v.1 λ l. p (last-cons t rest l))
      | inr e ↦ rw e tt
    ])
Sound-Split P fuel cmds ts ih (operator (a ∷ args) t rest h n_arg) lt r v p =
    let (va, vr) = All-suffix (a ∷ args) t rest v in
    rw (step-command fuel cmds a args t rest h n_arg) (
      ih _ rest (omega (arith, length-append args (t ∷ rest))) (add-IsRunnable cmds a args t r h va)
        vr λ l. p (last-append (a ∷ args) (t ∷ rest) (last-cons t rest l)))

parse_from-Sound : (P : Type 0) (fuel : ℕ) → Ih P fuel
parse_from-Sound P zero cmds ts lt r v p = absurd (omega arith)
parse_from-Sound P (suc fuel) cmds ts lt r v p =
    Sound-Split P fuel cmds ts (parse_from-Sound P fuel) (split ts) lt r v p

Sound-if :
    (P : Type 0) (b : Bool) (x y : Outcome) → Sound P x → Sound P y → Sound P (if b then x else y)
Sound-if P true x y h k = h
Sound-if P false x y h k = k

-- On every list of tokens that is not NULL and whose arguments have values, `cmd_parse` returns, or
-- it reads through a NULL, which it does only if the last token is an argument. Every command that
-- it returns has a first argument, and none of its arguments is NULL.
pub cmd_parse-Sound :
    (t : Token) (ts : List Token)
    → All HasValue (t ∷ ts)
    → Sound (last_is_arg (t ∷ ts) ≡ true) (cmd_parse (t ∷ ts))
unfolding cmd_parse
cmd_parse-Sound t ts v =
    let P = last_is_arg (t ∷ ts) ≡ true in
    Sound-if P (is_invalid_first_sep t.category) (done []) _ tt (
      Sound-if P (is_newline t.category) (done []) (parse_from (suc (suc (length ts))) [] (t ∷ ts))
        tt (parse_from-Sound P (suc (suc (length ts))) [] (t ∷ ts) (omega arith) tt v λ l. l))
