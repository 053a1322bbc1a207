-- ===== src/Shell/Run/Turn.antt =====
-- One turn of the loop of `main`: a line is read, parsed and run.
use ift.Base.{
  ℕ, ◌≡◌, ◌≢◌, refl, sym, subst, ◌∙◌, ap, Bool, true, false, Option, none, some, List, [], ◌∷◌,
  ◌++◌, map, if◌then◌else◌, All, ◌&&◌,
}
use ift.Shell.Tokenizer.{newline, Token, plain, tok_next_line}
use ift.Shell.Tokenizer.Print.{Word, spell, token_of, IsWritable, tok_next_line-spell}
use ift.Shell.Tokenizer.Values.{tok_next_line-HasValue}
use ift.Shell.Parser.{Op, terminator, Command, Outcome, done, fault, out_of_fuel, cmd_parse}
use ift.Shell.Parser.Print.{Written, IsWritten, command_of, unparse, cmd_parse-unparse}
use ift.Shell.Parser.Total.{Sound, IsRunnable, last_is_arg, cmd_parse-Sound}
use ift.Shell.Run.{
  Result, failed, success, request_exit, exit_string, same_string, Launch, Launched, pipe_failed,
  fork_failed, ended, of_launched, Reply, returned, exited, null_argument, Final, finished,
  shell_exited, null_read, is_skipped_op, is_pipe, short_circuits, run_command, execute_command,
  proceed, run_from, sh_run, faults, after_run, after_parse, after_read, turn,
}

module _ {W : Type 0} (launch : Launch W) where
  -- `turn`, when it is known what the reader returns
  turn-read :
      (input : List ℕ) (t : Token) (ts : List Token) (rest : List ℕ) (w : W)
      → tok_next_line input ≡ some (t ∷ ts, rest)
      → turn launch input w ≡ after_parse launch rest w (cmd_parse (t ∷ ts))
  unfolding turn after_read
  turn-read input t ts rest w e = ap (after_read launch w) e

  -- A line is spelled from words, and its tokens are those of written commands, the last of them
  -- with the newline as its operator: then the turn runs those commands, and goes on behind the line
  -- unless the shell ends.
  pub turn-line :
      (words : List Word) (input : List ℕ) (c : Written) (cmds : List Written) (w : W)
      → All IsWritable words
      → All IsWritten (c ∷ cmds)
      → map token_of words ++ plain newline ∷ [] ≡ unparse (c ∷ cmds) []
      → turn launch (spell words (b'\n' ∷ input)) w
        ≡ after_run input (sh_run launch (map command_of (c ∷ cmds)) w)
  unfolding after_parse
  turn-line words input c cmds w h k e =
      let read = tok_next_line-spell words input h ∙ ap (λ (l : List Token). some (l, input)) e in
      turn-read (spell words (b'\n' ∷ input)) _ _ input w read
      ∙ ap (after_parse launch input w) (cmd_parse-unparse c cmds k)

  abbrev NotNull : Reply W → Type 0
  NotNull (returned r skip fd w) = Unit
  NotNull (exited w) = Unit
  NotNull null_argument = ⊥

  NotNull-if : (b : Bool) (x y : Reply W) → NotNull x → NotNull y → NotNull (if b then x else y)
  NotNull-if true x y h k = h
  NotNull-if false x y h k = k

  launched-NotNull : (fd : ℕ) (l : Launched × W) → NotNull (of_launched fd l)
  unfolding of_launched
  launched-NotNull fd (pipe_failed, w) = tt
  launched-NotNull fd (fork_failed, w) = tt
  launched-NotNull fd (ended status read_end, w) = tt

  run_command-NotNull :
      (args : List (Option (List ℕ))) (op : Op) (from_pipe : Bool) (fd : ℕ) (w : W)
      → IsRunnable (record { args = args; op = op })
      → NotNull (run_command launch (record { args = args; op = op }) from_pipe fd w)
  unfolding run_command
  run_command-NotNull [] op from_pipe fd w h = h.0 refl
  run_command-NotNull (none ∷ others) op from_pipe fd w h = cc (h.1.0)
  run_command-NotNull (some s ∷ others) op from_pipe fd w h =
      NotNull-if (same_string s exit_string) _ _ tt (launched-NotNull fd (launch _ w))

  execute_command-NotNull :
      (c : Command) (prev : Op) (r : Result) (skip : Bool) (fd : ℕ) (w : W)
      → IsRunnable c
      → NotNull (execute_command launch c prev r skip fd w)
  unfolding execute_command
  execute_command-NotNull c prev r skip fd w h = NotNull-if (short_circuits prev r) _ _ tt (
      NotNull-if (skip && is_skipped_op prev) _ _ tt
        (run_command-NotNull c.args c.op (is_pipe prev) fd w h))

  proceed-no_null :
      (f : Result → Bool → ℕ → W → Final W) (reply : Reply W)
      → NotNull reply
      → ((r : Result) (skip : Bool) (fd : ℕ) (w : W) → f r skip fd w ≢ null_read)
      → proceed f reply ≢ null_read
  unfolding proceed
  proceed-no_null f (returned request_exit skip fd w) n h = λ e. cc e
  proceed-no_null f (returned failed skip fd w) n h = h failed skip fd w
  proceed-no_null f (returned success skip fd w) n h = h success skip fd w
  proceed-no_null f (exited w) n h = λ e. cc e
  proceed-no_null f null_argument n h = absurd n

  run_from-no_null :
      (cs : List Command) (prev : Op) (r : Result) (skip : Bool) (fd : ℕ) (w : W)
      → All IsRunnable cs
      → run_from launch cs prev r skip fd w ≢ null_read
  unfolding run_from
  run_from-no_null [] prev r skip fd w h = λ e. cc e
  run_from-no_null (c ∷ cs) prev r skip fd w h =
      proceed-no_null (run_from launch cs c.op) (execute_command launch c prev r skip fd w)
        (execute_command-NotNull c prev r skip fd w h.0)
        λ r2 skip2 fd2 w2. run_from-no_null cs c.op r2 skip2 fd2 w2 h.1

  sh_run-no_null :
      (args : List (Option (List ℕ))) (op : Op) (cs : List Command) (w : W)
      → All IsRunnable (record { args = args; op = op } ∷ cs)
      → sh_run launch (record { args = args; op = op } ∷ cs) w ≢ null_read
  unfolding sh_run
  sh_run-no_null [] op cs w h = λ e. cc e
  sh_run-no_null (none ∷ others) op cs w h = λ e. cc e
  sh_run-no_null (some s ∷ others) op cs w h =
      run_from-no_null (record { args = some s ∷ others; op = op } ∷ cs) terminator success false 0
        w h

  after_run-no_fault : (rest : List ℕ) (f : Final W) → f ≢ null_read → after_run rest f ≢ faults
  unfolding after_run
  after_run-no_fault rest (finished request_exit w) n = λ e. cc e
  after_run-no_fault rest (finished failed w) n = λ e. cc e
  after_run-no_fault rest (finished success w) n = λ e. cc e
  after_run-no_fault rest (shell_exited w) n = λ e. cc e
  after_run-no_fault rest null_read n = absurd (n refl)

  after_parse-no_fault :
      (P : Type 0) (rest : List ℕ) (w : W) (o : Outcome)
      → Sound P o
      → ¬ P
      → after_parse launch rest w o ≢ faults
  unfolding after_parse
  after_parse-no_fault P rest w (done []) s n = λ e. cc e
  after_parse-no_fault P rest w (done (c ∷ cs)) s n =
      after_run-no_fault rest (sh_run launch (c ∷ cs) w) (sh_run-no_null c.args c.op cs w s)
  after_parse-no_fault P rest w fault s n = absurd (n s)
  after_parse-no_fault P rest w out_of_fuel s n = absurd s

  after_read-no_fault :
      (input : List ℕ) (ts : List Token) (rest : List ℕ) (w : W)
      → tok_next_line input ≡ some (ts, rest)
      → last_is_arg ts ≡ false
      → after_read launch w (some (ts, rest)) ≢ faults
  unfolding after_read
  after_read-no_fault input [] rest w e l = λ e2. cc e2
  after_read-no_fault input (t ∷ ts) rest w e l =
      after_parse-no_fault (last_is_arg (t ∷ ts) ≡ true) rest w (cmd_parse (t ∷ ts))
        (cmd_parse-Sound t ts (tok_next_line-HasValue input (t ∷ ts) rest e)) λ e2. cc (l, e2)

  -- A turn on a line whose last token is no argument, as a newline is not, reads through no NULL,
  -- whatever the system calls do.
  pub turn-safe :
      (input : List ℕ) (ts : List Token) (rest : List ℕ) (w : W)
      → tok_next_line input ≡ some (ts, rest)
      → last_is_arg ts ≡ false
      → turn launch input w ≢ faults
  unfolding turn
  turn-safe input ts rest w e l =
      subst (λ o. after_read launch w o ≢ faults) (sym e) (after_read-no_fault input ts rest w e l)
