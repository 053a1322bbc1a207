-- ===== src/Fat/Path/Tests.antt =====
-- Paths that are simplified.
use ift.Base.{ℕ, ◌≡◌, refl, List, [], ◌∷◌}
use ift.Fat.Path.{names, part, no_level, get_simplified_path, break_up_path, is_dot, is_dot_dot}
use ift.Fat.Path.Parts.{parts_from, resolve}
use ift.Fat.Path.Resolved.{get_simplified_path-resolve}

-- `a/..//b/.`
abbrev dots : List ℕ
dots = b'a' ∷ b'/' ∷ b'.' ∷ b'.' ∷ b'/' ∷ b'/' ∷ b'b' ∷ b'/' ∷ b'.' ∷ []

get_simplified_path-resolve_example : get_simplified_path dots ≡ resolve (parts_from [] dots) []
get_simplified_path-resolve_example = get_simplified_path-resolve dots

dots_simplified : get_simplified_path dots ≡ names ((b'b' ∷ []) ∷ [])
unfolding get_simplified_path is_dot is_dot_dot
dots_simplified = refl

first_level : break_up_path dots 0 ≡ part (b'B' ∷ [])
unfolding break_up_path is_dot is_dot_dot
first_level = refl

second_level : break_up_path dots 1 ≡ no_level
unfolding break_up_path is_dot is_dot_dot
second_level = refl
