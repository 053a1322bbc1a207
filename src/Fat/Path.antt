-- ===== src/Fat/Path.antt =====
-- tp4/src/main.c: the parts of a path. A path is the list of its bytes without the NUL; `malloc` is
-- taken to succeed.
mod Tests
pub mod Parts
pub mod Resolved
pub mod Levels
use ift.Base.{
  ℕ, zero, suc, ◌+◌, Bool, true, false, ◌&&◌, Option, none, some, List, [], ◌∷◌, ◌++◌, ltb, leb,
  ◌==◌, if◌then◌else◌, length, drop, get_elem?, map, reverse, ◌-◌,
}

-- `while (i < path_len && path[i] == '/') i++;`
unfoldable pub skip_slashes : List ℕ → List ℕ
skip_slashes [] = []
skip_slashes (c ∷ cs) = if c == b'/' then skip_slashes cs else c ∷ cs

-- `path[i] == '.' && (i + 1 == path_len || path[i + 1] == '/')`
unfoldable pub is_dot : List ℕ → Bool
is_dot [] = false
is_dot (c ∷ []) = c == b'.'
is_dot (c ∷ d ∷ cs) = c == b'.' && d == b'/'

-- the test for `..`
unfoldable pub is_dot_dot : List ℕ → Bool
is_dot_dot [] = false
is_dot_dot (c ∷ []) = false
is_dot_dot (c ∷ d ∷ []) = c == b'.' && d == b'.'
is_dot_dot (c ∷ d ∷ e ∷ cs) = c == b'.' && d == b'.' && e == b'/'

-- the name up to the next slash, and the rest
unfoldable pub take_name : List ℕ → List ℕ × List ℕ
take_name [] = ([], [])
take_name (c ∷ cs) =
    let (name, rest) = take_name cs in if c == b'/' then ([], c ∷ cs) else (c ∷ name, rest)

-- How `get_simplified_path` ends: with the names, the last one first, or with -2.
pub data Simplified : Type 0 where
  names : List (List ℕ) → Simplified
  above_root : Simplified
  out_of_fuel : Simplified

-- its loop
unfoldable pub walk : ℕ → List ℕ → List (List ℕ) → Simplified
unfolding skip_slashes take_name
walk zero path stack = out_of_fuel
walk (suc fuel) [] stack = names stack
walk (suc fuel) (c ∷ cs) stack =
    let path = c ∷ cs in
    let popped : Simplified = elim stack [
      | [] ↦ above_root
      | name ∷ below ↦ walk fuel (drop 3 path) below
    ] in
    let skipped = walk fuel (skip_slashes cs) stack in
    let ignored = walk fuel (drop 2 path) stack in
    let pushed = walk fuel (take_name path).1 ((take_name path).0 ∷ stack) in
    if c == b'/'
    then skipped
    else if is_dot path
    then ignored
    else if is_dot_dot path
    then popped
    else pushed

-- Each turn takes a byte at least.
unfoldable pub get_simplified_path : List ℕ → Simplified
unfolding walk
get_simplified_path path = walk (suc (length path)) path []

unfoldable pub upper : ℕ → ℕ
upper c = if leb b'a' c && leb c b'z' then c - 32 else c

-- `break_up_path`: the name at a level in upper case, or -1 or -2
pub data Broken : Type 0 where
  part : List ℕ → Broken
  bad_path no_level : Broken

unfoldable pub at_level : ℕ → Simplified → Broken
unfolding upper
at_level level (names stack) = elim (get_elem? (reverse stack) level) [
  | none ↦ no_level
  | some name ↦ part (map upper name)
]
at_level level above_root = bad_path
at_level level out_of_fuel = bad_path

unfoldable pub break_up_path : List ℕ → ℕ → Broken
unfolding get_simplified_path at_level
break_up_path path level = at_level level (get_simplified_path path)
