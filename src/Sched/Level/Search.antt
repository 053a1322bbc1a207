-- ===== src/Sched/Level/Search.antt =====
-- The search for the node of a process, and its removal.
use ift.Sched.Level.Links.{first, last, Seg}
use ift.Sched.Level.Insert.{Rep, at, length-map}
use ift.Base.{
  inl, inr, ◌⊎◌, ℕ, zero, suc, ◌≤◌, ◌≡◌, refl, sym, ◌∙◌, ap, subst, Bool, true, false, Option, none,
  some, List, [], ◌∷◌, ◌++◌, arith, if◌then◌else◌, map, length, Bool-cases,
}
use ift.Sched.Level.{Cells, Level, unlink, search_for, remove, is_process}
use ift.Sched.Level.Unlink.{unlink-Rep}

-- Whether a process is in the list, and the list without its first entry for the process.
unfoldable pub has : ℕ → List (Option ℕ) → Bool
has p [] = false
has p (q ∷ qs) = if is_process q p then true else has p qs

unfoldable pub delete : ℕ → List (Option ℕ) → List (Option ℕ)
delete p [] = []
delete p (q ∷ qs) = let rest = delete p qs in if is_process q p then qs else q ∷ rest

-- What the search finds in the rest `ys` of the nodes.
record Hit (c : Cells) (p fuel : ℕ) (prev : Option ℕ) (ys : List ℕ) : Type 0 where
  pub before : List ℕ
  pub node : ℕ
  pub behind : List ℕ
  pub parts : ys ≡ before ++ node ∷ behind
  pub found : search_for fuel c p prev (first ys none) ≡ some (last before prev, node)
  pub there : has p (map (λ a. (c a).process) ys) ≡ true
  pub left :
      delete p (map (λ a. (c a).process) ys)
      ≡ map (λ a. (c a).process) before ++ map (λ a. (c a).process) behind

record Miss (c : Cells) (p fuel : ℕ) (prev : Option ℕ) (ys : List ℕ) : Type 0 where
  pub found : search_for fuel c p prev (first ys none) ≡ none
  pub there : has p (map (λ a. (c a).process) ys) ≡ false
  pub left : delete p (map (λ a. (c a).process) ys) ≡ map (λ a. (c a).process) ys

search_end : (fuel : ℕ) (c : Cells) (p : ℕ) (prev : Option ℕ) → search_for fuel c p prev none ≡ none
unfolding search_for
search_end zero c p prev = refl
search_end (suc fuel) c p prev = refl

search_step :
    (fuel : ℕ) (c : Cells) (p : ℕ) (prev next : Option ℕ) (a : ℕ)
    → (c a).next ≡ next
    → search_for (suc fuel) c p prev (some a)
      ≡ (if is_process (c a).process p then some (prev, a) else search_for fuel c p (some a) next)
unfolding search_for
search_step fuel c p prev next a e =
    ap (λ o. if is_process (c a).process p then some (prev, a) else search_for fuel c p (some a) o)
      e

search :
    (c : Cells) (p fuel : ℕ) (prev : Option ℕ) (ys : List ℕ)
    → Seg c prev ys none
    → length ys ≤ fuel
    → Hit c p fuel prev ys ⊎ Miss c p fuel prev ys
unfolding has delete
search c p fuel prev [] s le =
    inr (record { found = search_end fuel c p prev; there = refl; left = refl })
search c p zero prev (a ∷ ys) s le = absurd (omega arith)
search c p (suc fuel) prev (a ∷ ys) s le =
    let step = search_step fuel c p prev (first ys none) a s.1 in
    elim (Bool-cases (is_process (c a).process p)) [
      | inl t ↦ inl (record {
        before = [];
        node = a;
        behind = ys;
        parts = refl;
        found = step ∙ rw t refl;
        there = rw t refl;
        left = rw t refl;
      })
      | inr t ↦ elim (search c p fuel (some a) ys s.2 (omega arith)) [
        | inl f ↦ inl (record {
          before = a ∷ f.before;
          node = f.node;
          behind = f.behind;
          parts = ap (λ z. a ∷ z) f.parts;
          found = step ∙ rw t f.found;
          there = rw t f.there;
          left = rw t (ap (λ z. (c a).process ∷ z) f.left);
        })
        | inr f ↦ inr (record {
          found = step ∙ rw t f.found;
          there = rw t f.there;
          left = rw t (ap (λ z. (c a).process ∷ z) f.left);
        })
      ]
    ]

remove-hit :
    (l : Level) (p : ℕ) (prev : Option ℕ) (a : ℕ)
    → search_for l.size l.cells p none l.tail ≡ some (prev, a)
    → remove l p ≡ (true, unlink l prev a)
unfolding remove
remove-hit l p prev a e = rw (e, remove) refl

remove-miss :
    (l : Level) (p : ℕ) → search_for l.size l.cells p none l.tail ≡ none → remove l p ≡ (false, l)
unfolding remove
remove-miss l p e = rw (e, remove) refl

removed :
    (l l' : Level) (p : ℕ) (ps : List (Option ℕ)) (b : Bool)
    → remove l p ≡ (b, l')
    → has p ps ≡ b
    → Rep l' (delete p ps)
    → ((remove l p).0 ≡ has p ps) × Rep (remove l p).1 (delete p ps)
removed l l' p ps b e e2 r = (
  ap (λ (x : Bool × Level). x.0) e ∙ sym e2,
  subst (λ (x : Level). Rep x (delete p ps)) (sym (ap (λ (x : Bool × Level). x.1) e)) r,
)

-- `remove` says whether the process is in the list, and takes its first entry away.
pub remove-Rep :
    (l : Level) (p : ℕ) (ps : List (Option ℕ))
    → Rep l ps
    → ((remove l p).0 ≡ has p ps) × Rep (remove l p).1 (delete p ps)
remove-Rep l p ps r =
    let enough : length r.nodes ≤ l.size =
      omega (arith, length-map (at l) r.nodes, ap length r.processes, r.size_length) in
    elim (search l.cells p l.size none r.nodes r.seg enough) [
      | inl f ↦
          let e =
            subst (λ t. search_for l.size l.cells p none t ≡ some (last f.before none, f.node))
              (sym r.tail_first) f.found in
          removed l (unlink l (last f.before none) f.node) p ps true (remove-hit l p _ _ e)
            (ap (has p) (sym r.processes) ∙ f.there)
            (subst (Rep (unlink l (last f.before none) f.node))
              (sym f.left ∙ ap (delete p) r.processes)
              (unlink-Rep l ps r f.before f.node f.behind f.parts))
      | inr f ↦
          let e =
            subst (λ t. search_for l.size l.cells p none t ≡ none) (sym r.tail_first) f.found in
          removed l l p ps false (remove-miss l p e) (ap (has p) (sym r.processes) ∙ f.there)
            (subst (Rep l) (sym r.processes ∙ sym f.left ∙ ap (delete p) r.processes) r)
    ]
