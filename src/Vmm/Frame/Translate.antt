-- ===== src/Vmm/Frame/Translate.antt =====
-- `get_frame` returns on every valid state, with the frame that the page table has for the page.
use ift.Base.{
  ℕ, ◌<◌, ◌≡◌, inl, inr, refl, sym, ◌∙◌, subst, ap, Bool, true, false, none, some, length,
  length-set, get_or, All, Option-cases, Bool-cases, Yields, Yields-bind, lt→ltb,
}
use ift.Vmm.Conf.{num_frames, num_pages, physical_memory_size}
use ift.Vmm.PageTable
use ift.Vmm.PageTable.{
  PageTable, page, readonly_p, set_entry, unset_entry, set_readonly, update_counters, find_page,
  find_victim_frame_number,
}
use ift.Vmm.PageTable.Laws.{Maps, lookup_lem}
use ift.Vmm.Tlb
use ift.Vmm.Tlb.{remove_page_from_tlb}
use ift.Vmm.Tlb.Slots.{
  slots, Live, Not, lookup-find_slot, slots-add_entry, find_slot-hit, find_slot-miss,
}
use ift.Vmm.Frame.Mapped.{
  IsMapped-pages, Maps-pages, IsMapped, set_readonly-IsMapped, update_counters-IsMapped,
  add_slot-IsMapped, Maps-lt, Maps-set_readonly, Maps-update_counters,
}
use ift.Vmm.Frame.Fault.{IsValid, FaultedIn, fault_in-FaultedIn}
use ift.Vmm.Frame.{Vmm, fault_in, tlb_miss, tlb_hit, get_frame}

-- What `get_frame` promises of a page.
pub record Translated (s : Vmm) (n : ℕ) (r : ℕ × Vmm) : Type 0 where
  pub frame_in : r.0 < num_frames
  pub maps : Maps r.1.pt n r.0
  pub valid : IsValid r.1

-- the state before the counters are updated, with the page in the TLB
pub record Placed (n : ℕ) (r : ℕ × Vmm) : Type 0 where
  pub frame_in : r.0 < num_frames
  pub maps : Maps r.1.pt n r.0
  pub mapped : IsMapped r.1.pt (slots r.1.tlb)
  pub bitmap_sized : length r.1.pm.bitmap ≡ num_frames
  pub memory_sized : length r.1.pm.memory ≡ physical_memory_size

place :
    (t : Vmm) (n f : ℕ) (readonly : Bool)
    → IsMapped t.pt (slots t.tlb)
    → All (Live (Not n)) (slots t.tlb)
    → Maps t.pt n f
    → IsMapped t.pt (slots (Tlb.add_entry t.tlb n f readonly))
place t n f readonly v fresh maps =
    subst (IsMapped t.pt) (sym (slots-add_entry t.tlb n f readonly))
      (add_slot-IsMapped t.pt (slots t.tlb) _ n f v fresh maps)

-- the state after the lookup in the page table
abbrev pub pt_looked_up : Vmm → ℕ → Vmm
pt_looked_up s n = record s { pt = (PageTable.lookup s.pt n).1 }

pub pt_looked_up-IsValid : (s : Vmm) (n : ℕ) → IsValid s → IsValid (pt_looked_up s n)
pt_looked_up-IsValid s n v =
    let same = sym (lookup_lem s.pt n).1 in
    record {
      mapped = IsMapped-pages s.pt (pt_looked_up s n).pt (slots s.tlb) same v.mapped;
      bitmap_sized = v.bitmap_sized;
      memory_sized = v.memory_sized;
      taken = λ f used.
          let (m, inside, live) = v.taken f used in
          (m, inside, subst (λ es. (get_or es m PageTable.blank).valid ≡ true) same live);
    }

pub tlb_miss-Placed :
    (s : Vmm) (n : ℕ) (write : Bool)
    → IsValid s
    → n < num_pages
    → All (Live (Not n)) (slots s.tlb)
    → Yields (Placed n) (tlb_miss s n write)
unfolding tlb_miss
tlb_miss-Placed s n write v lt fresh =
    let same = sym (lookup_lem s.pt n).1 in
    let s' = pt_looked_up s n in
    let valid = pt_looked_up-IsValid s n v in
    let v' = valid.mapped in
    elim (Bool-cases (page s.pt n).valid) [
      | inl here ↦
          let f = (page s.pt n).frame_number in
          let found : (PageTable.lookup s.pt n).0 ≡ some f = (lookup_lem s.pt n).0 ∙ rw here in
          let maps = Maps-pages s.pt s'.pt same n f (here, refl) in
          rw found (record {
            frame_in = v.mapped.framed n f (here, refl);
            maps = maps;
            mapped = place s' n f _ v' fresh maps;
            bitmap_sized = v.bitmap_sized;
            memory_sized = v.memory_sized;
          })
      | inr gone ↦
          let absent : (PageTable.lookup s.pt n).0 ≡ none = (lookup_lem s.pt n).0 ∙ rw gone in
          rw absent (
            Yields-bind (FaultedIn s' n) (Placed n) (fault_in s' n write) _
              (fault_in-FaultedIn s' n write valid lt fresh)
              λ (f, t) r. record {
                frame_in = r.frame_in;
                maps = r.maps;
                mapped = place t n f _ r.mapped r.fresh r.maps;
                bitmap_sized = ap length r.bitmap ∙ length-set s.pm.bitmap f true ∙ v.bitmap_sized;
                memory_sized = r.memory ∙ v.memory_sized;
              })
    ]

pub tlb_hit-Placed :
    (s : Vmm) (f n : ℕ) (write : Bool)
    → IsValid s
    → Maps s.pt n f
    → Yields (Placed n) (tlb_hit s f n write)
unfolding tlb_hit
tlb_hit-Placed s f n write v maps =
    let lt = Maps-lt s.pt v.mapped.sized n f maps in
    elim (Bool-cases write) [
      | inr reading ↦ rw reading (record {
        frame_in = v.mapped.framed n f maps;
        maps = maps;
        mapped = v.mapped;
        bitmap_sized = v.bitmap_sized;
        memory_sized = v.memory_sized;
      })
      | inl writing ↦ rw writing (record {
        frame_in = v.mapped.framed n f maps;
        maps = Maps-set_readonly s.pt v.mapped.sized n lt false n f maps;
        mapped = set_readonly-IsMapped s.pt (slots s.tlb) v.mapped n lt false;
        bitmap_sized = v.bitmap_sized;
        memory_sized = v.memory_sized;
      })
    ]

-- the state after the lookup in the TLB
abbrev pub looked_up : Vmm → ℕ → Bool → Vmm
looked_up s n write = record s { tlb = (Tlb.lookup s.tlb n write).1 }

pub looked_up-IsValid : (s : Vmm) (n : ℕ) (write : Bool) → IsValid s → IsValid (looked_up s n write)
looked_up-IsValid s n write v = record {
  mapped = subst (IsMapped s.pt) (sym (lookup-find_slot s.tlb n write).1) v.mapped;
  bitmap_sized = v.bitmap_sized;
  memory_sized = v.memory_sized;
  taken = v.taken;
}

Placed-Translated :
    (s : Vmm) (n : ℕ)
    → n < num_pages
    → (r : ℕ × Vmm) → Placed n r
    → Translated s n (r.0, record (r.1) { pt = update_counters r.1.pt n })
Placed-Translated s n lt (f, t) p =
    let maps = Maps-update_counters t.pt p.mapped.sized n lt n f p.maps in
    record {
      frame_in = p.frame_in;
      maps = maps;
      valid = record {
        mapped = update_counters-IsMapped t.pt (slots t.tlb) p.mapped n lt;
        bitmap_sized = p.bitmap_sized;
        memory_sized = p.memory_sized;
        taken = λ g used. (n, lt, maps.0);
      };
    }

-- On a valid state `get_frame` returns for every page below 256: the frame exists, the page table
-- maps the page to it afterwards, and the state is valid again.
pub get_frame-Translated :
    (s : Vmm) (n : ℕ) (write : Bool)
    → IsValid s
    → n < num_pages
    → Yields (Translated s n) (get_frame s n write)
unfolding get_frame
get_frame-Translated s n write v lt =
    let t = looked_up s n write in
    let v' = looked_up-IsValid s n write v in
    let (answer, same) = lookup-find_slot s.tlb n write in
    rw (lt→ltb n num_pages lt) (elim (Option-cases (Tlb.lookup s.tlb n write).0) [
      | inl miss ↦ rw miss (
          Yields-bind (Placed n) (Translated s n) (tlb_miss t n write) _
            (tlb_miss-Placed t n write v' lt (
              subst (All (Live (Not n))) (sym same)
                (find_slot-miss (slots s.tlb) n (sym answer ∙ miss))))
            (Placed-Translated s n lt))
      | inr (f, hit) ↦ rw hit (
          Yields-bind (Placed n) (Translated s n) (tlb_hit t f n write)
            (λ (g, u). some (g, record u { pt = update_counters u.pt n }))
            (tlb_hit-Placed t f n write v'
              (find_slot-hit (Maps s.pt) (slots s.tlb) n f (sym answer ∙ hit) v.mapped.cached))
            (Placed-Translated s n lt))
    ])
