-- ===== src/Vmm/Tlb/Tests.antt =====
-- The choice of an entry of the TLB at a concrete table.
use ift.Base.{ℕ, ◌≤◌, ◌≡◌, refl, true, false, some, List, [], ◌∷◌, arith, is_some}
use ift.Vmm.Tlb.{TlbEntry, victim}
use ift.Vmm.Tlb.Victim.{victim-live}

abbrev oldest : List TlbEntry
oldest =
    record { page_number = 4; frame_number = some 2; readonly = true; counter = 3 }
    ∷ record { page_number = 5; frame_number = some 1; readonly = false; counter = 6 }
    ∷ []

victim-live_example : (is_some {A = ℕ} (some 2) ≡ true) × (3 ≤ 6)
unfolding victim
victim-live_example = victim-live oldest refl 0 (omega arith)
