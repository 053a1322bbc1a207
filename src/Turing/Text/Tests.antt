-- ===== src/Turing/Text/Tests.antt =====
-- A machine that replaces each `a` by a `b`.
use ift.Base.{ℕ, ◌<◌, ◌≡◌, refl, none, some, List, [], ◌∷◌, arith}
use ift.Turing.Machine.{stay, forward, Transition, Tape, step}
use ift.Turing.Machine.View.{Sees, left_of, right_of}
use ift.Turing.Machine.Run.{infinite_step, input_tape, step-infinite}
use ift.Turing.Text.{readline, execute}
use ift.Turing.Text.Lines.{IsNameByte, IsName, IsLineByte}
use ift.Turing.Text.Print.{IsPrintable, machine_file, readline-long, execute-machine_file}

abbrev q0 : List ℕ
q0 = b'q' ∷ b'0' ∷ []

abbrev qa : List ℕ
qa = b'q' ∷ b'A' ∷ []

abbrev qr : List ℕ
qr = b'q' ∷ b'R' ∷ []

abbrev replaces : Transition
replaces = record {
  current_state = q0;
  next_state = q0;
  movement = forward;
  read = b'a';
  write = b'b';
}

abbrev halts : Transition
halts = record { current_state = q0; next_state = qa; movement = stay; read = b' '; write = b' ' }

abbrev table : List Transition
table = replaces ∷ halts ∷ []

IsNameByte-letter : (c : ℕ) → 44 < c → IsNameByte c
IsNameByte-letter c lt = record {
  no_null = λ e. absurd (omega arith);
  no_newline = λ e. absurd (omega arith);
  no_comma = λ e. absurd (omega arith);
}

q0-IsName : IsName q0
q0-IsName = (
  (IsNameByte-letter b'q' (omega arith), (IsNameByte-letter b'0' (omega arith), tt)),
  omega arith,
)

qa-IsName : IsName qa
qa-IsName = (
  (IsNameByte-letter b'q' (omega arith), (IsNameByte-letter b'A' (omega arith), tt)),
  omega arith,
)

qr-IsName : IsName qr
qr-IsName = (
  (IsNameByte-letter b'q' (omega arith), (IsNameByte-letter b'R' (omega arith), tt)),
  omega arith,
)

IsLineByte-visible : (c : ℕ) → 31 < c → IsLineByte c
IsLineByte-visible c lt = ((λ e. absurd (omega arith)), (λ e. absurd (omega arith)))

replaces-IsPrintable : IsPrintable replaces
replaces-IsPrintable = record {
  current = q0-IsName;
  next = q0-IsName;
  read = IsLineByte-visible b'a' (omega arith);
  write = IsLineByte-visible b'b' (omega arith);
}

halts-IsPrintable : IsPrintable halts
halts-IsPrintable = record {
  current = q0-IsName;
  next = qa-IsName;
  read = IsLineByte-visible b' ' (omega arith);
  write = IsLineByte-visible b' ' (omega arith);
}

execute-machine_file_example :
    execute 10 (machine_file q0 qa qr table) (b'a' ∷ b'a' ∷ [])
    ≡ some (some (infinite_step 10 table qa qr q0 (input_tape (b'a' ∷ b'a' ∷ []))))
execute-machine_file_example =
    execute-machine_file 10 q0 qa qr table (b'a' ∷ b'a' ∷ []) q0-IsName qa-IsName qr-IsName
      (replaces-IsPrintable, (halts-IsPrintable, tt))

readline-long_example : readline (b'q' ∷ b'0' ∷ b'\n' ∷ []) 1 ≡ none
readline-long_example =
    readline-long q0 (b'\n' ∷ []) 1
      (IsLineByte-visible b'q' (omega arith), (IsLineByte-visible b'0' (omega arith), tt)) refl

-- the tape `  a `, with the head on the `a`
abbrev tape : Tape
tape = record { cells = b' ' ∷ b' ' ∷ b'a' ∷ b' ' ∷ []; position = 2 }

tape-Sees : Sees tape (record { left = left_of tape; right = right_of tape })
tape-Sees = record { lefts = λ n. refl; rights = λ n. refl }

step-infinite_example :
    step 9 table qa qr q0 tape
    ≡ infinite_step 9 table qa qr q0 (record { left = left_of tape; right = right_of tape })
step-infinite_example =
    step-infinite 9 table qa qr q0 tape _ (record { above = omega arith; below = omega arith })
      tape-Sees
