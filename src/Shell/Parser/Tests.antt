-- ===== src/Shell/Parser/Tests.antt =====
-- Lists of tokens that the parser gets.
use ift.Base.{ℕ, ◌≡◌, refl, inl, inr, true, false, some, [], ◌∷◌, map}
use ift.Shell.Tokenizer.{symbol, pipe, newline, Token, plain}
use ift.Shell.Parser.{terminator, op_and, done, is_arg, cmd_parse}
use ift.Shell.Parser.Print.{Written, command_of, unparse, cmd_parse-unparse, cmd_parse-refuses}
use ift.Shell.Parser.Total.{Sound, cmd_parse-Sound}

abbrev word : ℕ → Token
word c = record { category = symbol; value = some (c ∷ []) }

-- `a b && c`
abbrev a_b : Written
a_b = record { first = word b'a'; others = word b'b' ∷ []; op = op_and }

abbrev c_end : Written
c_end = record { first = word b'c'; others = []; op = terminator }

cmd_parse-unparse_example :
    cmd_parse (unparse (a_b ∷ c_end ∷ []) []) ≡ done (map command_of (a_b ∷ c_end ∷ []))
unfolding is_arg
cmd_parse-unparse_example =
    cmd_parse-unparse a_b (c_end ∷ []) ((refl, (refl, tt)), ((refl, tt), tt))

-- `a b && | c`
cmd_parse-refuses_example :
    cmd_parse (unparse (a_b ∷ []) (plain pipe ∷ word b'c' ∷ plain newline ∷ [])) ≡ done []
unfolding is_arg
cmd_parse-refuses_example =
    cmd_parse-refuses a_b [] (plain pipe) (word b'c' ∷ plain newline ∷ []) ((refl, (refl, tt)), tt)
      refl refl

cmd_parse-Sound_example :
    Sound (false ≡ true) (cmd_parse (word b'a' ∷ plain pipe ∷ word b'c' ∷ plain newline ∷ []))
unfolding is_arg
cmd_parse-Sound_example =
    cmd_parse-Sound (word b'a') (plain pipe ∷ word b'c' ∷ plain newline ∷ [])
      (inr refl, (inl refl, (inr refl, (inl refl, tt))))
