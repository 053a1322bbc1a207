-- ===== src/Vmm/Frame/Mapped.antt =====
-- The invariant that ties the page table to the TLB, and the operations that keep it.
use ift.Base.{
  subst, ap, get_or, [], ◌∷◌, zero, suc, ℕ, ◌<◌, ◌≡◌, ◌≢◌, ◌⊎◌, inl, inr, Bool, true, none, some,
  List, arith, ◌==◌, length, set, All, AllPairs, All-mono, All-zip, All-set, sym, ◌∙◌, Bool-cases,
}
use ift.Vmm.Conf.{num_frames, num_pages}
use ift.Vmm.PageTable.{
  Page, blank, PageTable, page, set_entry, unset_entry, set_readonly, update_counters, find_page,
}
use ift.Vmm.PageTable.Laws.{
  IsSized, Maps, page-set_entry, page-unset_entry, page-set_readonly, page-update_counters,
  set_entry-IsSized, unset_entry-IsSized, set_readonly-IsSized, update_counters-IsSized, tick_same,
  find_page-some,
}
use ift.Vmm.Tlb.Slots.{
  Slot, Live, Apart, Not, free_slot, free_slot-All, free_slot-Apart, free_slot-page, free_slot-gone,
  free_slot-none, set-Apart,
}

-- Valid pages name existing frames, and every live slot of the TLB repeats an entry of the page
-- table; no page has two live slots.
pub record IsMapped (t : PageTable) (ss : List Slot) : Type 0 where
  pub sized : IsSized t
  pub framed : (n f : ℕ) → Maps t n f → f < num_frames
  pub cached : All (Live (Maps t)) ss
  pub apart : AllPairs Apart ss

-- Only the entries of the table matter.
pub Maps-pages : (t u : PageTable) → t.pages ≡ u.pages → (n f : ℕ) → Maps t n f → Maps u n f
Maps-pages t u e n f =
    subst (λ es. ((get_or es n blank).valid ≡ true) × ((get_or es n blank).frame_number ≡ f)) e

pub IsMapped-pages :
    (t u : PageTable) (ss : List Slot) → t.pages ≡ u.pages → IsMapped t ss → IsMapped u ss
IsMapped-pages t u ss e v = record {
  sized = subst (λ es. length es ≡ num_pages) e v.sized;
  framed = λ n f m. v.framed n f (Maps-pages u t (sym e) n f m);
  cached =
      All-mono (Live (Maps t)) (Live (Maps u)) ss (λ s k f q. Maps-pages t u e s.0 f (k f q))
        v.cached;
  apart = v.apart;
}

get_or-valid-lt : (es : List Page) (n : ℕ) → (get_or es n blank).valid ≡ true → n < length es
get_or-valid-lt [] n e = absurd (cc)
get_or-valid-lt (x ∷ es) zero e = omega arith
get_or-valid-lt (x ∷ es) (suc n) e = omega (arith, get_or-valid-lt es n e)

pub Maps-lt : (t : PageTable) → IsSized t → (n f : ℕ) → Maps t n f → n < num_pages
Maps-lt t sized n f m = omega (arith, get_or-valid-lt t.pages n m.0)

module _ (t : PageTable) (sized : IsSized t) (n : ℕ) (h : n < num_pages) where
  pub Maps-set_entry_self : (f : ℕ) → f < num_frames → Maps (set_entry t n f) n f
  Maps-set_entry_self f lt = ground (arith, page-set_entry t sized n n h f)

  pub Maps-set_entry_ne : (f m g : ℕ) → m ≢ n → Maps t m g → Maps (set_entry t n f) m g
  Maps-set_entry_ne f m g ne e = ground (arith, page-set_entry t sized n m h f)

  -- the other way round: what the new table maps
  pub Maps-set_entry_inv :
      (f m g : ℕ)
      → f < num_frames
      → Maps (set_entry t n f) m g
      → ((m ≡ n) × (g ≡ f)) ⊎ ((m ≢ n) × Maps t m g)
  Maps-set_entry_inv f m g lt e = elim (Bool-cases (n == m)) [
    | inl same ↦ inl (ground (arith, page-set_entry t sized n m h f))
    | inr other ↦ inr (ground (arith, page-set_entry t sized n m h f))
  ]

  pub Maps-unset_entry : (m g : ℕ) → m ≢ n → Maps t m g → Maps (unset_entry t n) m g
  Maps-unset_entry m g ne e = ground (arith, page-unset_entry t sized n m h)

  pub Maps-unset_entry_inv : (m g : ℕ) → Maps (unset_entry t n) m g → (m ≢ n) × Maps t m g
  Maps-unset_entry_inv m g e = elim (Bool-cases (n == m)) [
    | inl same ↦ absurd (ground (arith, page-unset_entry t sized n m h))
    | inr other ↦ ground (arith, page-unset_entry t sized n m h)
  ]

  pub Maps-set_readonly : (b : Bool) (m g : ℕ) → Maps t m g → Maps (set_readonly t n b) m g
  Maps-set_readonly b m g e = ground (arith, page-set_readonly t sized n m h b)

  pub Maps-set_readonly_inv : (b : Bool) (m g : ℕ) → Maps (set_readonly t n b) m g → Maps t m g
  Maps-set_readonly_inv b m g e = elim (Bool-cases (n == m)) [
    | inl same ↦ ground (arith, page-set_readonly t sized n m h b)
    | inr other ↦ ground (arith, page-set_readonly t sized n m h b)
  ]

  pub Maps-update_counters : (m g : ℕ) → Maps t m g → Maps (update_counters t n) m g
  Maps-update_counters m g e =
      ground (arith, page-update_counters t sized n m h, tick_same (page t n), tick_same (page t m))

  pub Maps-update_counters_inv : (m g : ℕ) → Maps (update_counters t n) m g → Maps t m g
  Maps-update_counters_inv m g e = elim (Bool-cases (n == m)) [
    | inl same ↦
        ground
          (arith, page-update_counters t sized n m h, tick_same (page t n), tick_same (page t m))
    | inr other ↦
        ground
          (arith, page-update_counters t sized n m h, tick_same (page t n), tick_same (page t m))
  ]

module _ (t : PageTable) (ss : List Slot) (v : IsMapped t ss) (n : ℕ) (h : n < num_pages) where
  pub set_entry-IsMapped :
      (f : ℕ) → f < num_frames → All (Live (Not n)) ss → IsMapped (set_entry t n f) ss
  set_entry-IsMapped f lt fresh = record {
    sized = set_entry-IsSized t v.sized n f;
    framed = λ m g e. elim (Maps-set_entry_inv t v.sized n h f m g lt e) [
      | inl (same, at) ↦ omega arith
      | inr (other, old) ↦ v.framed m g old
    ];
    cached =
        All-zip (Live (Not n)) (Live (Maps t)) (Live (Maps (set_entry t n f))) ss
          (λ s other k g q. Maps-set_entry_ne t v.sized n h f s.0 g (other g q) (k g q)) fresh
          v.cached;
    apart = v.apart;
  }

  pub set_readonly-IsMapped : (b : Bool) → IsMapped (set_readonly t n b) ss
  set_readonly-IsMapped b = record {
    sized = set_readonly-IsSized t v.sized n b;
    framed = λ m g e. v.framed m g (Maps-set_readonly_inv t v.sized n h b m g e);
    cached =
        All-mono (Live (Maps t)) (Live (Maps (set_readonly t n b))) ss
          (λ s k f q. Maps-set_readonly t v.sized n h b s.0 f (k f q)) v.cached;
    apart = v.apart;
  }

  pub update_counters-IsMapped : IsMapped (update_counters t n) ss
  update_counters-IsMapped = record {
    sized = update_counters-IsSized t v.sized n;
    framed = λ m g e. v.framed m g (Maps-update_counters_inv t v.sized n h m g e);
    cached =
        All-mono (Live (Maps t)) (Live (Maps (update_counters t n))) ss
          (λ s k f q. Maps-update_counters t v.sized n h s.0 f (k f q)) v.cached;
    apart = v.apart;
  }

-- A new slot of a page that the table maps and that has no live slot.
pub add_slot-IsMapped :
    (t : PageTable) (ss : List Slot) (i n f : ℕ)
    → IsMapped t ss
    → All (Live (Not n)) ss
    → Maps t n f
    → IsMapped t (set ss i (n, some f))
add_slot-IsMapped t ss i n f v fresh m = record {
  sized = v.sized;
  framed = v.framed;
  cached = All-set (Live (Maps t)) ss i (n, some f) (λ g q. ground arith) v.cached;
  apart = set-Apart ss i n f fresh v.apart;
}

-- The page that `get_frame` takes for the owner of `frame`: the TLB's answer, or the search's.
abbrev pub Owner : PageTable → List Slot → ℕ → ℕ → Type 0
Owner t ss frame w =
    ((free_slot ss frame).0 ≡ some w)
    ⊎ ((free_slot ss frame).0 ≡ none) × (find_page t frame ≡ some w)

module _ (t : PageTable) (ss : List Slot) (v : IsMapped t ss) (frame w : ℕ)
    (o : Owner t ss frame w) where
  -- With the frame's slot gone, no live slot is left of the page that is unmapped.
  Owner-fresh : All (Live (Not w)) (free_slot ss frame).1
  Owner-fresh = elim o [
    | inl cached ↦ free_slot-gone ss frame w cached v.apart
    | inr found ↦
        let named = (find_page-some t frame w found.1).1 in
        All-zip (Live (λ m f. f ≢ frame)) (Live (Maps t)) (Live (Not w)) (free_slot ss frame).1
          (λ s other k f q same.
            other f q (sym (k f q).1 ∙ ap (λ m. (page t m).frame_number) same ∙ named))
          (free_slot-All (λ m f. f ≢ frame) ss frame (free_slot-none ss frame found.0))
          (free_slot-All (Maps t) ss frame v.cached)
  ]

  Owner-lt : w < num_pages
  Owner-lt = elim o [
    | inl cached ↦ Maps-lt t v.sized w frame (free_slot-page (Maps t) ss frame w cached v.cached)
    | inr found ↦ omega (arith, v.sized, (find_page-some t frame w found.1).0)
  ]

  pub unset_entry-IsMapped : IsMapped (unset_entry t w) (free_slot ss frame).1
  unset_entry-IsMapped = record {
    sized = unset_entry-IsSized t v.sized w;
    framed = λ m g e. v.framed m g (Maps-unset_entry_inv t v.sized w Owner-lt m g e).1;
    cached =
        All-zip (Live (Not w)) (Live (Maps t)) (Live (Maps (unset_entry t w)))
          (free_slot ss frame).1
          (λ s other k f q. Maps-unset_entry t v.sized w Owner-lt s.0 f (other f q) (k f q))
          Owner-fresh (free_slot-All (Maps t) ss frame v.cached);
    apart = free_slot-Apart ss frame v.apart;
  }
