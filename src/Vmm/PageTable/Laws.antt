-- ===== src/Vmm/PageTable/Laws.antt =====
-- What each operation of the page table does to each entry.
use ift.Base.{
  ap, get_or-replicate, ℕ, zero, suc, ◌+◌, ◌%◌, ◌≢◌, inl, inr, Bool-cases, ◌^◌, ◌<◌, ◌≡◌, refl, ap,
  ◌∙◌, Bool, true, false, none, some, List, [], ◌∷◌, map, arith, ◌==◌, if◌then◌else◌, length,
  length-map, length-modify, get_or, get_or-modify, get_or-map_same,
}
use ift.Vmm.Conf.{num_pages}
use ift.Vmm.PageTable.{
  Page, PageTable, blank, zeroed, init, page, tick, update_counters, set_entry, unset_entry,
  set_readonly, find_page_from, find_page, lookup,
}

abbrev pub IsSized : PageTable → Type 0
IsSized t = length t.pages ≡ num_pages

-- page `n` is in memory, in frame `f`
abbrev pub Maps : PageTable → ℕ → ℕ → Type 0
Maps t n f = ((page t n).valid ≡ true) × ((page t n).frame_number ≡ f)

module _ (t : PageTable) (sized : IsSized t) where
  module _ (n j : ℕ) (h : n < num_pages) where
    pub page-set_entry :
        (f : ℕ)
        → page (set_entry t n f) j ≡ (
            if n == j
            then record { readonly = true; valid = true; frame_number = f % 2 ^ 16; counter = 0 }
            else page t j)
    unfolding set_entry
    page-set_entry f = get_or-modify t.pages n j _ blank (omega arith)

    pub page-unset_entry :
        page (unset_entry t n) j
        ≡ (let e = page t j in if n == j then record (page t n) { valid = false } else e)
    unfolding unset_entry
    page-unset_entry = get_or-modify t.pages n j _ blank (omega arith)

    pub page-set_readonly :
        (b : Bool)
        → page (set_readonly t n b) j
          ≡ (if n == j then record (page t n) { readonly = b } else page t j)
    unfolding set_readonly
    page-set_readonly b = get_or-modify t.pages n j _ blank (omega arith)

    pub page-update_counters :
        page (update_counters t n) j
        ≡ (if n == j then record (tick (page t n)) { counter = 0 } else tick (page t j))
    unfolding update_counters tick
    page-update_counters = ground (
      arith,
      get_or-modify (map tick t.pages) n j (λ (e : Page). record e { counter = 0 }) blank,
      length-map t.pages tick,
      get_or-map_same t.pages j tick blank refl,
      get_or-map_same t.pages n tick blank refl,
    )

  pub set_entry-IsSized : (n f : ℕ) → IsSized (set_entry t n f)
  unfolding set_entry
  set_entry-IsSized n f = length-modify t.pages n _ ∙ sized

  pub unset_entry-IsSized : (n : ℕ) → IsSized (unset_entry t n)
  unfolding unset_entry
  unset_entry-IsSized n = length-modify t.pages n _ ∙ sized

  pub set_readonly-IsSized : (n : ℕ) (b : Bool) → IsSized (set_readonly t n b)
  unfolding set_readonly
  set_readonly-IsSized n b = length-modify t.pages n _ ∙ sized

  pub update_counters-IsSized : (n : ℕ) → IsSized (update_counters t n)
  unfolding update_counters
  update_counters-IsSized n = length-modify (map tick t.pages) n _ ∙ length-map t.pages tick ∙ sized

-- A tick changes the counter alone.
pub tick_same :
    (e : Page)
    → ((tick e).valid ≡ e.valid)
      × ((tick e).readonly ≡ e.readonly)
      × ((tick e).frame_number ≡ e.frame_number)
unfolding tick
tick_same e = ground arith

-- An access finds the frame of a valid page, and changes no entry.
pub lookup_lem :
    (t : PageTable) (n : ℕ)
    → ((lookup t n).0 ≡ (if (page t n).valid then some (page t n).frame_number else none))
      × ((lookup t n).1.pages ≡ t.pages)
unfolding lookup
lookup_lem t n = (refl, refl)

find_page_from-some :
    (i : ℕ) (es : List Page) (frame n : ℕ)
    → find_page_from i es frame ≡ some n
    → (k : ℕ) × (n ≡ i + k) × (k < length es) × ((get_or es k blank).frame_number ≡ frame)
unfolding find_page_from
find_page_from-some i [] frame n h = absurd (ground arith)
find_page_from-some i (e ∷ es) frame n h = elim (Bool-cases (e.frame_number == frame)) [
  | inl hit ↦ (0, ground arith, omega arith, ground arith)
  | inr miss ↦
      let (k, at, inside, same) = find_page_from-some (suc i) es frame n (rw miss at h) in
      (suc k, omega arith, omega arith, same)
]

find_page_from-none :
    (i : ℕ) (es : List Page) (frame k : ℕ)
    → find_page_from i es frame ≡ none
    → k < length es
    → (get_or es k blank).frame_number ≢ frame
unfolding find_page_from
find_page_from-none i [] frame k h lt = absurd (omega arith)
find_page_from-none i (e ∷ es) frame zero h lt = ground arith
find_page_from-none i (e ∷ es) frame (suc k) h lt =
    ground (arith, find_page_from-none (suc i) es frame k)

-- What the search finds is in the table and names the frame, valid or not.
pub find_page-some :
    (t : PageTable) (frame n : ℕ)
    → find_page t frame ≡ some n
    → (n < length t.pages) × ((page t n).frame_number ≡ frame)
unfolding find_page
find_page-some t frame n h =
    let (k, at, inside, same) = find_page_from-some 0 t.pages frame n h in
    let e : n ≡ k = omega arith in (omega arith, rw e same)

-- A frame that some page names is found.
pub find_page-none :
    (t : PageTable) (frame n : ℕ)
    → find_page t frame ≡ none
    → n < length t.pages
    → (page t n).frame_number ≢ frame
unfolding find_page
find_page-none t frame n h lt = find_page_from-none 0 t.pages frame n h lt

pub find_page-pages :
    (t u : PageTable) (frame : ℕ) → t.pages ≡ u.pages → find_page t frame ≡ find_page u frame
unfolding find_page
find_page-pages t u frame e = ap (λ ps. find_page_from 0 ps frame) e

-- After the initialisation no page is valid.
pub page-init : (n : ℕ) → page (init zeroed) n ≡ blank
unfolding init
page-init n =
    get_or-map_same zeroed.pages n (λ (e : Page). record e { valid = false }) blank refl
    ∙ ap (λ (e : Page). record e { valid = false }) (get_or-replicate num_pages n blank)

pub init-IsSized : IsSized (init zeroed)
unfolding init
init-IsSized = refl
