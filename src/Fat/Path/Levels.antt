-- ===== src/Fat/Path/Levels.antt =====
-- The levels of a path.
use ift.Base.{
  ℕ, ◌≡◌, refl, ap, ◌∙◌, Option, none, some, List, map, reverse, sym, inl, inr, Option-cases,
  get_elem?, get_elem?-map,
}
use mathlib.Core.Option
use ift.Fat.Path.{
  Broken, part, no_level, bad_path, above_root, names, upper, at_level, get_simplified_path,
  break_up_path,
}

abbrev pub levels : List (List ℕ) → List (List ℕ)
levels stack = map (map upper) (reverse stack)

abbrev pub level_of : Option (List ℕ) → Broken
level_of none = no_level
level_of (some name) = part name

at_level-level_of :
    (level : ℕ) (stack : List (List ℕ))
    → at_level level (names stack)
      ≡ level_of (Option.map (map upper) (get_elem? (reverse stack) level))
unfolding at_level
at_level-level_of level stack = elim (Option-cases (get_elem? (reverse stack) level)) [
  | inl e ↦ rw (e, at_level) refl
  | inr (name, e) ↦ rw (e, at_level) refl
]

pub break_up_path-level :
    (path : List ℕ) (stack : List (List ℕ)) (level : ℕ)
    → get_simplified_path path ≡ names stack
    → break_up_path path level ≡ level_of (get_elem? (levels stack) level)
unfolding break_up_path
break_up_path-level path stack level e =
    ap (at_level level) e
    ∙ at_level-level_of level stack
    ∙ ap level_of (sym (get_elem?-map (reverse stack) level (map upper)))

pub break_up_path-above_root :
    (path : List ℕ) (level : ℕ)
    → get_simplified_path path ≡ above_root
    → break_up_path path level ≡ bad_path
unfolding break_up_path at_level
break_up_path-above_root path level e = ap (at_level level) e
