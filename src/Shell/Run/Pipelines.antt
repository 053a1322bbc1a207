-- ===== src/Shell/Run/Pipelines.antt =====
-- The loop of `sh_run` against a line of pipelines.
use ift.Base.{
  ℕ, ◌≡◌, refl, ◌∙◌, ap, inl, inr, ◌⊎◌, Bool, true, false, ◌&&◌, Option, none, some, List, [], ◌∷◌,
  ◌++◌, if◌then◌else◌, Bool-cases,
}
use ift.Shell.Parser.{Op, terminator, separator, op_and, op_or, op_pipe, Command}
use ift.Shell.Run.{
  Result, failed, success, request_exit, Launch, Reply, returned, exited, null_argument, Final,
  finished, exit_string, same_string, Launched, pipe_failed, fork_failed, ended, of_launched,
  is_skipped_op, is_pipe, short_circuits, run_command, execute_command, proceed, run_from, sh_run,
}

abbrev pub Args : Type 0
Args = List (Option (List ℕ))

-- Commands joined by pipes: the first one and the others.
pub record Pipeline : Type 0 where
  pub first : Args
  pub others : List Args

-- `;`, `&&` and `||`
pub data Connector : Type 0 where
  then_always then_if then_unless : Connector

abbrev pub op_of : Connector → Op
op_of then_always = separator
op_of then_if = op_and
op_of then_unless = op_or

-- the commands of a pipeline with the operator behind it
abbrev pub chain : Args → List Args → Op → List Command
chain a [] op = record { args = a; op = op } ∷ []
chain a (b ∷ bs) op = record { args = a; op = op_pipe } ∷ chain b bs op

abbrev pub Rest : Type 0
Rest = List (Connector × Pipeline)

abbrev pub next_op : Rest → Op → Op
next_op [] end = end
next_op (r ∷ rs) end = op_of r.0

abbrev pub tail_commands : Rest → Op → List Command
tail_commands [] end = []
tail_commands ((k, p) ∷ rest) end =
    chain p.first p.others (next_op rest end) ++ tail_commands rest end

abbrev pub commands_of : Pipeline → Rest → Op → List Command
commands_of p rest end = chain p.first p.others (next_op rest end) ++ tail_commands rest end

-- What a line means. A pipeline runs each of its commands, the first one on the shell's input and
-- each other one on the pipe of the command before it, and its result is that of the last one.
module _ {W : Type 0} (launch : Launch W) where
  pub run_pipeline : Bool → Args → List Args → Op → ℕ → W → (Result → ℕ → W → Final W) → Final W
  run_pipeline from_pipe a [] op fd w next =
      proceed (λ r skip fd2 w2. next r fd2 w2)
        (run_command launch (record { args = a; op = op }) from_pipe fd w)
  run_pipeline from_pipe a (b ∷ bs) op fd w next =
      proceed (λ r skip fd2 w2. run_pipeline true b bs op fd2 w2 next)
        (run_command launch (record { args = a; op = op_pipe }) from_pipe fd w)

  abbrev pub runs_after : Connector → Result → Bool
  runs_after then_always r = true
  runs_after then_if success = true
  runs_after then_if _ = false
  runs_after then_unless failed = true
  runs_after then_unless _ = false

  -- A pipeline that does not run is passed over whole, and leaves the result for the next connector.
  pub run_rest : Rest → Op → Result → ℕ → W → Final W
  run_rest [] end r fd w = finished success w
  run_rest ((k, p) ∷ rest) end r fd w =
      let skip = run_rest rest end r fd w in
      let run = run_pipeline false p.first p.others (next_op rest end) fd w (run_rest rest end) in
      if runs_after k r then run else skip

  pub run_line : Pipeline → Rest → Op → W → Final W
  run_line p rest end w =
      run_pipeline false p.first p.others (next_op rest end) 0 w (run_rest rest end)

  -- a result with which the loop goes on
  abbrev Continues : Result → Type 0
  Continues r = (r ≡ failed) ⊎ (r ≡ success)

  abbrev Same : (Result → Bool → ℕ → W → Final W) → (Result → ℕ → W → Final W) → Type 0
  Same f g = (r : Result) (fd : ℕ) (w : W) → Continues r → f r false fd w ≡ g r fd w

  abbrev Unskipped : Reply W → Type 0
  Unskipped (returned r skip fd w) = skip ≡ false
  Unskipped (exited w) = Unit
  Unskipped null_argument = Unit

  proceed-Same :
      (f : Result → Bool → ℕ → W → Final W) (g : Result → ℕ → W → Final W) (reply : Reply W)
      → Same f g
      → Unskipped reply
      → proceed f reply ≡ proceed (λ r skip fd w. g r fd w) reply
  unfolding proceed
  proceed-Same f g (returned request_exit skip fd w) h e = refl
  proceed-Same f g (returned failed skip fd w) h e = rw e (h failed fd w (inl refl))
  proceed-Same f g (returned success skip fd w) h e = rw e (h success fd w (inr refl))
  proceed-Same f g (exited w) h e = refl
  proceed-Same f g null_argument h e = refl

  launched-Unskipped : (fd : ℕ) (l : Launched × W) → Unskipped (of_launched fd l)
  unfolding of_launched
  launched-Unskipped fd (pipe_failed, w) = tt
  launched-Unskipped fd (fork_failed, w) = refl
  launched-Unskipped fd (ended status read_end, w) = refl

  Unskipped-if :
      (b : Bool) (x y : Reply W) → Unskipped x → Unskipped y → Unskipped (if b then x else y)
  Unskipped-if true x y h k = h
  Unskipped-if false x y h k = k

  run_command-Unskipped :
      (args : Args) (op : Op) (from_pipe : Bool) (fd : ℕ) (w : W)
      → Unskipped (run_command launch (record { args = args; op = op }) from_pipe fd w)
  unfolding run_command
  run_command-Unskipped [] op from_pipe fd w = tt
  run_command-Unskipped (none ∷ others) op from_pipe fd w = tt
  run_command-Unskipped (some s ∷ others) op from_pipe fd w =
      Unskipped-if (same_string s exit_string) _ _ refl (launched-Unskipped fd (launch _ w))

  -- a command that is not skipped
  run_from-one :
      (args : Args) (op : Op) (cs : List Command) (prev : Op) (r : Result) (skip : Bool) (fd : ℕ)
      (w : W)
      → short_circuits prev r ≡ false
      → (skip && is_skipped_op prev) ≡ false
      → (next : Result → ℕ → W → Final W) → Same (run_from launch cs op) next
      → run_from launch (record { args = args; op = op } ∷ cs) prev r skip fd w
        ≡ proceed
            (λ r skip fd w. next r fd w)
            (run_command launch (record { args = args; op = op }) (is_pipe prev) fd w)
  unfolding run_from execute_command
  run_from-one args op cs prev r skip fd w e e2 next h =
      rw (e, e2)
        (proceed-Same (run_from launch cs op) next _ h
          (run_command-Unskipped args op (is_pipe prev) fd w))

  pipe_runs : (r : Result) → short_circuits op_pipe r ≡ false
  unfolding short_circuits
  pipe_runs failed = refl
  pipe_runs success = refl
  pipe_runs request_exit = refl

  run_from-chain :
      (a : Args) (bs : List Args) (op : Op) (cs : List Command) (prev : Op) (r : Result)
      (skip : Bool) (fd : ℕ) (w : W)
      → short_circuits prev r ≡ false
      → (skip && is_skipped_op prev) ≡ false
      → (next : Result → ℕ → W → Final W) → Same (run_from launch cs op) next
      → run_from launch (chain a bs op ++ cs) prev r skip fd w
        ≡ run_pipeline (is_pipe prev) a bs op fd w next
  unfolding run_pipeline
  run_from-chain a [] op cs prev r skip fd w e e2 next h =
      run_from-one a op cs prev r skip fd w e e2 next h
  run_from-chain a (b ∷ bs) op cs prev r skip fd w e e2 next h =
      run_from-one a op_pipe (chain b bs op ++ cs) prev r skip fd w e e2
        (λ r2 fd2 w2. run_pipeline true b bs op fd2 w2 next)
        λ r2 fd2 w2 k. run_from-chain b bs op cs op_pipe r2 false fd2 w2 (pipe_runs r2) refl next h

  -- the state of the loop in which a command is passed over
  abbrev Passes : Op → Result → Bool → Type 0
  Passes prev r skip =
      (short_circuits prev r ≡ true) ⊎ ((skip ≡ true) × (is_skipped_op prev ≡ true))

  execute_command-passed :
      (c : Command) (prev : Op) (r : Result) (skip : Bool) (fd : ℕ) (w : W)
      → Passes prev r skip
      → execute_command launch c prev r skip fd w ≡ returned r true fd w
  unfolding execute_command
  execute_command-passed c prev r skip fd w p = elim (Bool-cases (short_circuits prev r)) [
    | inl e ↦ rw e refl
    | inr e ↦ elim p [ inl e2 ↦ absurd (cc (e, e2)) | inr e2 ↦ rw (e, e2.0, e2.1) refl ]
  ]

  proceed-returned :
      (f : Result → Bool → ℕ → W → Final W) (r : Result) (skip : Bool) (fd : ℕ) (w : W)
      → Continues r
      → proceed f (returned r skip fd w) ≡ f r skip fd w
  unfolding proceed
  proceed-returned f failed skip fd w h = refl
  proceed-returned f success skip fd w h = refl
  proceed-returned f request_exit skip fd w h = elim h [
    | inl e ↦ absurd (cc e)
    | inr e ↦ absurd (cc e)
  ]

  run_from-passed :
      (c : Command) (cs : List Command) (prev : Op) (r : Result) (skip : Bool) (fd : ℕ) (w : W)
      → Continues r
      → Passes prev r skip
      → run_from launch (c ∷ cs) prev r skip fd w ≡ run_from launch cs c.op r true fd w
  unfolding run_from
  run_from-passed c cs prev r skip fd w h p =
      ap (proceed (run_from launch cs c.op)) (execute_command-passed c prev r skip fd w p)
      ∙ proceed-returned (run_from launch cs c.op) r true fd w h

  run_from-passed_chain :
      (a : Args) (bs : List Args) (op : Op) (cs : List Command) (prev : Op) (r : Result)
      (skip : Bool) (fd : ℕ) (w : W)
      → Continues r
      → Passes prev r skip
      → run_from launch (chain a bs op ++ cs) prev r skip fd w ≡ run_from launch cs op r true fd w
  unfolding is_skipped_op
  run_from-passed_chain a [] op cs prev r skip fd w h p = run_from-passed _ cs prev r skip fd w h p
  run_from-passed_chain a (b ∷ bs) op cs prev r skip fd w h p =
      run_from-passed _ (chain b bs op ++ cs) prev r skip fd w h p
      ∙ run_from-passed_chain b bs op cs op_pipe r true fd w h (inr (refl, refl))

  and_false : (b : Bool) → (b && false) ≡ false
  and_false true = refl
  and_false false = refl

  separator_runs : (r : Result) → short_circuits separator r ≡ false
  unfolding short_circuits
  separator_runs failed = refl
  separator_runs success = refl
  separator_runs request_exit = refl

  starts :
      (s : List ℕ) (others : Args) (more : List Args) (op : Op) (cs : List Command) (w : W)
      → sh_run launch (chain (some s ∷ others) more op ++ cs) w
        ≡ run_from launch (chain (some s ∷ others) more op ++ cs) terminator success false 0 w
  unfolding sh_run
  starts s others [] op cs w = refl
  starts s others (b ∷ bs) op cs w = refl

  -- The loop behind a pipeline that ended with `r`, or was passed over.
  run_from-tail :
      (rest : Rest) (end : Op) (r : Result) (skip : Bool) (fd : ℕ) (w : W)
      → Continues r
      → run_from launch (tail_commands rest end) (next_op rest end) r skip fd w
        ≡ run_rest rest end r fd w
  unfolding run_from run_rest short_circuits is_skipped_op
  run_from-tail [] end r skip fd w h = refl
  run_from-tail ((then_always, p) ∷ rest) end r skip fd w h =
      run_from-chain p.first p.others (next_op rest end) (tail_commands rest end) separator r skip
        fd w (separator_runs r) (and_false skip) (run_rest rest end)
        λ r2 fd2 w2 k. run_from-tail rest end r2 false fd2 w2 k
  run_from-tail ((then_if, p) ∷ rest) end failed skip fd w h =
      run_from-passed_chain p.first p.others (next_op rest end) (tail_commands rest end) op_and
        failed skip fd w h (inl refl)
      ∙ run_from-tail rest end failed true fd w h
  run_from-tail ((then_if, p) ∷ rest) end success skip fd w h =
      run_from-chain p.first p.others (next_op rest end) (tail_commands rest end) op_and success
        skip fd w refl (and_false skip) (run_rest rest end)
        λ r2 fd2 w2 k. run_from-tail rest end r2 false fd2 w2 k
  run_from-tail ((then_unless, p) ∷ rest) end success skip fd w h =
      run_from-passed_chain p.first p.others (next_op rest end) (tail_commands rest end) op_or
        success skip fd w h (inl refl)
      ∙ run_from-tail rest end success true fd w h
  run_from-tail ((then_unless, p) ∷ rest) end failed skip fd w h =
      run_from-chain p.first p.others (next_op rest end) (tail_commands rest end) op_or failed skip
        fd w refl (and_false skip) (run_rest rest end)
        λ r2 fd2 w2 k. run_from-tail rest end r2 false fd2 w2 k
  run_from-tail ((k, p) ∷ rest) end request_exit skip fd w h = elim h [
    | inl e ↦ absurd (cc e)
    | inr e ↦ absurd (cc e)
  ]

  -- `sh_run` on the commands of a line whose first command has a first argument, which is not NULL,
  -- runs the line's pipelines in order: each on the result of the one that ran before it, as its
  -- connector says, and a pipeline that does not run is passed over whole.
  pub sh_run-line :
      (s : List ℕ) (others : Args) (more : List Args) (rest : Rest) (end : Op) (w : W)
      → sh_run launch (commands_of (record { first = some s ∷ others; others = more }) rest end) w
        ≡ run_line (record { first = some s ∷ others; others = more }) rest end w
  unfolding run_line short_circuits
  sh_run-line s others more rest end w =
      starts s others more (next_op rest end) (tail_commands rest end) w
      ∙ run_from-chain (some s ∷ others) more (next_op rest end) (tail_commands rest end) terminator
          success false 0 w refl refl (run_rest rest end)
          λ r2 fd2 w2 k. run_from-tail rest end r2 false fd2 w2 k
