-- ===== src/Turing/Text/Print.antt =====
-- Machines that are written to a file and read back.
use ift.Base.{
  ℕ, zero, suc, ◌+◌, ◌-◌, ◌≤◌, ◌<◌, ◌≡◌, ◌≢◌, refl, sym, ◌∙◌, ap, false, none, some, List, [], ◌∷◌,
  ◌++◌, map, arith, ltb, ◌==◌, length, length-append, All, All-append, All-mono,
}
use mathlib.Core.List.{append_assoc}
use ift.Turing.Machine.{Movement, backward, stay, forward, Transition}
use ift.Turing.Machine.Run.{infinite_step, input_tape, step-initial_tape}
use ift.Turing.Text.{
  no_of_lines, line_from, readline, state_from, read_state, parse_movement, parse_line,
  get_transitions, execute, read_transition, run, transitions_of,
}
use ift.Turing.Text.Lines.{
  IsNameByte, IsLineByte, IsName, readline-line, line_from-long, unlines, no_of_lines-unlines,
  c_string-line,
}

-- When the next `max_len + 1` bytes of the file hold no NUL and no newline, `readline` writes behind
-- its buffer.
pub readline-long :
    (line rest : List ℕ) (max_len : ℕ)
    → All IsLineByte line
    → length line ≡ max_len + 1
    → readline (line ++ rest) max_len ≡ none
unfolding readline
readline-long line rest max_len h e =
    ap (λ n. line_from n (line ++ rest)) (sym e) ∙ line_from-long line rest h

state_from-name :
    (left : ℕ) (name rest : List ℕ)
    → All IsNameByte name
    → length name ≤ left
    → state_from left (name ++ b',' ∷ rest) ≡ some (name, b',' ∷ rest)
unfolding state_from
state_from-name zero [] rest h le = refl
state_from-name zero (c ∷ name) rest h le = absurd (omega arith)
state_from-name (suc left) [] rest h le = refl
state_from-name (suc left) (c ∷ name) rest h le =
    let ne : c ≢ b',' = h.0.no_comma in
    let e : (c == b',') ≡ false = ground arith in
    rw (e, state_from-name left name rest h.1 (omega arith)) refl

read_state-name :
    (name rest : List ℕ) → IsName name → read_state (name ++ b',' ∷ rest) ≡ some (name, rest)
unfolding read_state
read_state-name name rest h = rw (state_from-name 5 name rest h.0 h.1) refl

abbrev movement_byte : Movement → ℕ
movement_byte backward = b'G'
movement_byte stay = b'R'
movement_byte forward = b'D'

-- `(q,a)->(r,b,G)`
abbrev behind_state : Transition → List ℕ → List ℕ
behind_state t end = b',' ∷ t.write ∷ b',' ∷ movement_byte t.movement ∷ b')' ∷ end

abbrev middle : Transition → List ℕ → List ℕ
middle t end = b',' ∷ t.read ∷ b')' ∷ b'-' ∷ b'>' ∷ b'(' ∷ (t.next_state ++ behind_state t end)

abbrev print : Transition → List ℕ
print t = b'(' ∷ (t.current_state ++ middle t [])

pub record IsPrintable (t : Transition) : Type 0 where
  pub current : IsName t.current_state
  pub next : IsName t.next_state
  pub read : IsLineByte t.read
  pub write : IsLineByte t.write

print-end :
    (t : Transition)
    → (t.current_state ++ middle t []) ++ 0 ∷ [] ≡ t.current_state ++ middle t (0 ∷ [])
print-end t =
    append_assoc t.current_state (middle t []) (0 ∷ [])
    ∙ ap (λ l. t.current_state ++ b',' ∷ t.read ∷ b')' ∷ b'-' ∷ b'>' ∷ b'(' ∷ l)
        (append_assoc t.next_state (behind_state t []) (0 ∷ []))

parse_movement-byte : (m : Movement) → parse_movement (movement_byte m) ≡ some m
unfolding parse_movement
parse_movement-byte backward = refl
parse_movement-byte stay = refl
parse_movement-byte forward = refl

-- A transition that is printed is read back, if its names have at most five bytes and no comma.
parse_line-print : (t : Transition) → IsPrintable t → parse_line (print t) ≡ some (some t)
unfolding parse_line
parse_line-print t h =
    rw
      (
        print-end t,
        state_from-name 5 t.current_state _ h.current.0 h.current.1,
        state_from-name 5 t.next_state _ h.next.0 h.next.1,
        parse_movement-byte t.movement,
      )
      refl

name-IsLineByte : (s : List ℕ) → IsName s → All IsLineByte s
name-IsLineByte s h = All-mono _ _ s (λ c k. (k.no_null, k.no_newline)) h.0

byte : (c : ℕ) → 0 < c → 10 < c → IsLineByte c
byte c h k = ((λ e. absurd (omega arith)), (λ e. absurd (omega arith)))

movement_byte-IsLineByte : (m : Movement) → IsLineByte (movement_byte m)
movement_byte-IsLineByte backward = byte b'G' (omega arith) (omega arith)
movement_byte-IsLineByte stay = byte b'R' (omega arith) (omega arith)
movement_byte-IsLineByte forward = byte b'D' (omega arith) (omega arith)

behind_state-IsLineByte : (t : Transition) → IsPrintable t → All IsLineByte (behind_state t [])
behind_state-IsLineByte t h =
    let comma = byte b',' (omega arith) (omega arith) in
    (
      comma,
      (
        h.write,
        (comma, (movement_byte-IsLineByte t.movement, (byte b')' (omega arith) (omega arith), tt))),
      ),
    )

middle-IsLineByte : (t : Transition) → IsPrintable t → All IsLineByte (middle t [])
middle-IsLineByte t h =
    let next =
      All-append IsLineByte t.next_state (behind_state t []) (name-IsLineByte t.next_state h.next)
        (behind_state-IsLineByte t h) in
    (
      byte b',' (omega arith) (omega arith),
      (
        h.read,
        (
          byte b')' (omega arith) (omega arith),
          (
            byte b'-' (omega arith) (omega arith),
            (byte b'>' (omega arith) (omega arith), (byte b'(' (omega arith) (omega arith), next)),
          ),
        ),
      ),
    )

print-IsLineByte : (t : Transition) → IsPrintable t → All IsLineByte (print t)
print-IsLineByte t h = (
  byte b'(' (omega arith) (omega arith),
  All-append IsLineByte t.current_state (middle t []) (name-IsLineByte t.current_state h.current)
      (middle-IsLineByte t h),
)

length-print : (t : Transition) → IsPrintable t → length (print t) ≤ 1024
length-print t h = omega (
  arith,
  h.current.1,
  h.next.1,
  length-append t.current_state (middle t []),
  length-append t.next_state (behind_state t []),
)

read_transition-print :
    (t : Transition) (rest : List ℕ)
    → IsPrintable t
    → read_transition (print t ++ b'\n' ∷ rest) ≡ some (some t, rest)
unfolding read_transition
read_transition-print t rest h =
    let line = print-IsLineByte t h in
    rw (readline-line (print t) rest 1024 line (length-print t h))
      (rw (c_string-line (print t) line) (rw (parse_line-print t h) refl))

get_transitions-print :
    (ts : List Transition)
    → All IsPrintable ts
    → get_transitions (length ts) (unlines (map print ts)) ≡ some (some ts)
unfolding get_transitions
get_transitions-print [] h = refl
get_transitions-print (t ∷ ts) h =
    rw (read_transition-print t (unlines (map print ts)) h.0)
      (rw (get_transitions-print ts h.1) refl)

-- a machine as a file
abbrev pub machine_file : List ℕ → List ℕ → List ℕ → List Transition → List ℕ
machine_file initial accept reject ts = unlines (initial ∷ accept ∷ reject ∷ map print ts)

lines-IsLineByte : (ts : List Transition) → All IsPrintable ts → All (All IsLineByte) (map print ts)
lines-IsLineByte [] h = tt
lines-IsLineByte (t ∷ ts) h = (print-IsLineByte t h.0, lines-IsLineByte ts h.1)

length-lines : (ts : List Transition) → length (map print ts) ≡ length ts
length-lines [] = refl
length-lines (t ∷ ts) = ap suc (length-lines ts)

transitions_of-suc :
    (n k : ℕ) (file : List ℕ)
    → n ≡ suc (suc (suc k))
    → transitions_of n file ≡ get_transitions k file
unfolding transitions_of
transitions_of-suc n k file e =
    let e2 : ltb n 3 ≡ false = ground arith in let e3 : n - 3 ≡ k = omega arith in rw (e2, e3) refl

-- `execute` on the file of a machine ends as the machine does on a tape without ends, to the left of
-- the input and to the right, that holds the input, after as many turns. The names of its states have
-- at most five bytes and no comma, NUL or newline, and its transitions can be printed.
pub execute-machine_file :
    (fuel : ℕ) (initial accept reject : List ℕ) (ts : List Transition) (input : List ℕ)
    → IsName initial
    → IsName accept
    → IsName reject
    → All IsPrintable ts
    → execute fuel (machine_file initial accept reject ts) input
      ≡ some (some (infinite_step fuel ts accept reject initial (input_tape input)))
unfolding execute run
execute-machine_file fuel initial accept reject ts input hi ha hr h =
    let f3 = unlines (map print ts) in
    let li = name-IsLineByte initial hi in
    let la = name-IsLineByte accept ha in
    let lr = name-IsLineByte reject hr in
    let count : no_of_lines (machine_file initial accept reject ts) ≡ suc (suc (suc (length ts))) =
      no_of_lines-unlines (initial ∷ accept ∷ reject ∷ map print ts)
        (li, (la, (lr, lines-IsLineByte ts h)))
      ∙ ap (λ n. suc (suc (suc n))) (length-lines ts) in
    let e1 = readline-line initial (accept ++ b'\n' ∷ (reject ++ b'\n' ∷ f3)) 5 li hi.1 in
    let e2 = readline-line accept (reject ++ b'\n' ∷ f3) 5 la ha.1 in
    let e3 = readline-line reject f3 5 lr hr.1 in
    let e4 = transitions_of-suc _ (length ts) f3 count ∙ get_transitions-print ts h in
    rw (e1, e2, e3, e4, c_string-line initial li, c_string-line accept la, c_string-line reject lr)
      (ap (λ v. some (some v)) (step-initial_tape fuel ts accept reject initial input))
