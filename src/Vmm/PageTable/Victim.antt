-- ===== src/Vmm/PageTable/Victim.antt =====
-- `find_victim_frame_number`: the page that it chooses.
use ift.Base.{
  subst, ap, ◌∙◌, below-suc, Bool-cases, ℕ, suc, ◌+◌, ◌≤◌, ◌<◌, ◌≡◌, refl, inl, inr, Bool, true,
  false, Option, none, some, List, [], ◌∷◌, arith, ltb, if◌then◌else◌, length, get_or,
}
use ift.Vmm.PageTable.{Page, PageTable, blank, page, older, victim_from, find_victim_frame_number}

-- Among the pages below `i`, `o` is the oldest one of the class `readonly ≡ b`, if there is one.
module _ (t : PageTable) (b : Bool) where
  abbrev InClass : ℕ → Type 0
  InClass j = ((page t j).valid ≡ true) × ((page t j).readonly ≡ b)

  abbrev OldestBelow : ℕ → Option ℕ → Type 0
  OldestBelow i none = (j : ℕ) → j < i → InClass j → ⊥
  OldestBelow i (some k) =
      InClass k × (k < i) × ((j : ℕ) → j < i → InClass j → (page t j).counter ≤ (page t k).counter)

  OldestBelow-older :
      (i : ℕ) (o : Option ℕ)
      → InClass i
      → OldestBelow i o
      → OldestBelow (suc i) (older t.pages o i (page t i))
  unfolding older
  OldestBelow-older i none c h =
      (c, omega arith, below-suc _ i (λ j lt c'. absurd (h j lt c')) (λ _. omega arith))
  OldestBelow-older i (some k) c h = elim (Bool-cases (ltb (page t k).counter (page t i).counter)) [
    | inl newer ↦
        rw newer (
          c,
          omega arith,
          below-suc _ i (λ j lt c'. ground (arith, h.2 j lt c')) (λ _. omega arith),
        )
    | inr same ↦
        rw same (h.0, omega arith, below-suc _ i (λ j lt c'. h.2 j lt c') (λ _. ground arith))
  ]

  OldestBelow-skip :
      (i : ℕ) (o : Option ℕ) → ¬ (InClass i) → OldestBelow i o → OldestBelow (suc i) o
  OldestBelow-skip i none c h = below-suc _ i h c
  OldestBelow-skip i (some k) c h = (h.0, omega arith, below-suc _ i h.2 (λ c'. absurd (c c')))

module _ (t : PageTable) (i : ℕ) where
  clean_step :
      (o : Option ℕ)
      → OldestBelow t true i o
      → let e = page t i in
        OldestBelow t true
          (suc i)
          (if e.valid then (if e.readonly then older t.pages o i e else o) else o)
  clean_step o h = elim (Bool-cases (page t i).valid) [
    | inr out ↦ rw out (OldestBelow-skip t true i o (λ c. cc) h)
    | inl v ↦ rw v (elim (Bool-cases (page t i).readonly) [
      | inl r ↦ rw r (OldestBelow-older t true i o (v, r) h)
      | inr w ↦ rw w (OldestBelow-skip t true i o (λ c. cc) h)
    ])
  ]

  dirty_step :
      (o : Option ℕ)
      → OldestBelow t false i o
      → let e = page t i in
        OldestBelow t false
          (suc i)
          (if e.valid then (if e.readonly then o else older t.pages o i e) else o)
  dirty_step o h = elim (Bool-cases (page t i).valid) [
    | inr out ↦ rw out (OldestBelow-skip t false i o (λ c. cc) h)
    | inl v ↦ rw v (elim (Bool-cases (page t i).readonly) [
      | inl r ↦ rw r (OldestBelow-skip t false i o (λ c. cc) h)
      | inr w ↦ rw w (OldestBelow-older t false i o (v, w) h)
    ])
  ]

-- the two results of the loop, over the whole table
abbrev Chosen : PageTable → Option ℕ × Option ℕ → Type 0
Chosen t r = OldestBelow t true (length t.pages) r.0 × OldestBelow t false (length t.pages) r.1

-- `es` is what the loop has not seen yet
victim_from-Chosen :
    (t : PageTable) (i : ℕ) (es : List Page) (clean dirty : Option ℕ)
    → ((k : ℕ) → k < length es → page t (i + k) ≡ get_or es k blank)
    → i + length es ≡ length t.pages
    → OldestBelow t true i clean
    → OldestBelow t false i dirty
    → Chosen t (victim_from t.pages i es clean dirty)
unfolding victim_from
victim_from-Chosen t i [] clean dirty at len hc hd =
    let e : length t.pages ≡ i = omega arith in rw e (hc, hd)
victim_from-Chosen t i (e ∷ es) clean dirty at len hc hd =
    let here : page t i ≡ e = subst (λ n. page t n ≡ e) (omega arith) (at 0 (omega arith)) in
    victim_from-Chosen t (suc i) es _ _
      (λ k lt. subst (λ n. page t n ≡ get_or es k blank) (omega arith) (at (suc k) (omega arith)))
      (omega arith) (rw here at (clean_step t i clean hc)) (rw here at (dirty_step t i dirty hd))

-- The page that gives up its frame: valid, clean if any valid page is, and the oldest of its class.
pub record IsVictim (t : PageTable) (k : ℕ) : Type 0 where
  pub inside : k < length t.pages
  pub valid : (page t k).valid ≡ true
  pub clean_first :
      (page t k).readonly ≡ false
      → (j : ℕ) → j < length t.pages
      → (page t j).valid ≡ true
      → (page t j).readonly ≡ false
  pub oldest :
      (j : ℕ)
      → j < length t.pages
      → (page t j).valid ≡ true
      → (page t j).readonly ≡ (page t k).readonly
      → (page t j).counter ≤ (page t k).counter

IsVictim-clean :
    (t : PageTable) (k : ℕ) → OldestBelow t true (length t.pages) (some k) → IsVictim t k
IsVictim-clean t k h = record {
  inside = h.1;
  valid = h.0.0;
  clean_first = λ d. cc (h.0.1);
  oldest = λ j lt v r. h.2 j lt (v, r ∙ h.0.1);
}

IsVictim-dirty :
    (t : PageTable) (k : ℕ)
    → OldestBelow t true (length t.pages) none
    → OldestBelow t false (length t.pages) (some k)
    → IsVictim t k
IsVictim-dirty t k none_clean h = record {
  inside = h.1;
  valid = h.0.0;
  clean_first = λ d j lt v. elim (Bool-cases (page t j).readonly) [
    | inl r ↦ absurd (none_clean j lt (v, r))
    | inr w ↦ w
  ];
  oldest = λ j lt v r. h.2 j lt (v, r ∙ h.0.1);
}

-- If a page is valid then a victim is found: the least recently used of the clean pages if one is
-- valid, and else of the dirty pages.
pub find_victim_frame_number-IsVictim :
    (t : PageTable) (n : ℕ)
    → n < length t.pages
    → (page t n).valid ≡ true
    → (k : ℕ) × (find_victim_frame_number t ≡ some (page t k).frame_number) × IsVictim t k
unfolding find_victim_frame_number
find_victim_frame_number-IsVictim t n lt v = go (victim_from t.pages 0 t.pages none none) (
    victim_from-Chosen t 0 t.pages none none
      (λ k h. subst (λ j. page t j ≡ page t k) (omega arith) refl) (omega arith)
      (λ j h. absurd (omega arith)) (λ j h. absurd (omega arith)))
  where
    Goal : Option ℕ × Option ℕ → Type 0
    Goal r =
        (k : ℕ) × (elim r.0 as (λ _. Option ℕ) [
          | some i ↦ some (page t i).frame_number
          | none ↦ elim r.1 as (λ _. Option ℕ) [
            | some i ↦ some (page t i).frame_number
            | none ↦ none
          ]
        ]
          ≡ some (page t k).frame_number)
        × IsVictim t k

    go : (r : Option ℕ × Option ℕ) → Chosen t r → Goal r
    go (some k, d) h = (k, refl, IsVictim-clean t k h.0)
    go (none, some k) h = (k, refl, IsVictim-dirty t k h.0 h.1)
    go (none, none) h = elim (Bool-cases (page t n).readonly) [
      | inl r ↦ absurd (h.0 n lt (v, r))
      | inr w ↦ absurd (h.1 n lt (v, w))
    ]

-- Only the entries of the table matter.
pub find_victim-pages :
    (t u : PageTable) → t.pages ≡ u.pages → find_victim_frame_number t ≡ find_victim_frame_number u
unfolding find_victim_frame_number
find_victim-pages t u e = find_victim_of e
  where
    Of : List Page → Option ℕ
    Of ps =
        let r = victim_from ps 0 ps none none in
        elim r.0 [
          | some i ↦ some (get_or ps i blank).frame_number
          | none ↦ elim r.1 [ some i ↦ some (get_or ps i blank).frame_number | none ↦ none ]
        ]

    find_victim_of : t.pages ≡ u.pages → Of t.pages ≡ Of u.pages
    find_victim_of q = ap Of q
