-- ===== src/Pmm/RoundTrip.antt =====
-- `pmm_free` undoes `pmm_alloc`.
use atom_os.Prelude.{ℕ, ◌%◌, ◌≡◌, ◌≢◌, ◌∙◌, sym, subst, some, none, List, ◌∷◌, ◌++◌, arith}
use atom_os.Pmm.Region.{MemoryRegion, IsOrdered}
use atom_os.Pmm.Counting.{SameStatus}
use atom_os.Pmm.Alloc.{Mallocs, Reply, pmm_alloc}
use atom_os.Pmm.Alloc.Taken.{Taken, Holds}
use atom_os.Pmm.Alloc.Laws.{enough, pages_for, IsRequest, Answer, block, exhausted, pmm_alloc_lem}
use atom_os.Pmm.Free.{pmm_free}
use atom_os.Pmm.Free.Laws.{pmm_free_lem}

-- What an answered block comes with.
record Block (rs : List MemoryRegion) (kb p : ℕ) (out : List MemoryRegion) : Type 0 where
  aligned : p % 4096 ≡ 0
  ordered : IsOrdered out
  taken : Taken p (pages_for kb) rs out
  holds : Holds p (pages_for kb) out

abbrev Answered : List MemoryRegion → ℕ → Reply → Type 0
Answered rs kb (none, _, _) = Unit
Answered rs kb (some p, out, _) = Block rs kb p out

Answer-Answered :
    {rs : List MemoryRegion} {kb : ℕ} {m : Mallocs} {reply : Reply}
    → Answer rs kb m reply
    → Answered rs kb reply
Answer-Answered (block al ord t h) = record { aligned = al; ordered = ord; taken = t; holds = h }
Answer-Answered (exhausted f) = tt

abbrev Undone : List MemoryRegion → List MemoryRegion → ℕ → Type 0
Undone rs out p =
    (back : List MemoryRegion) × (pmm_free out p ≡ some back) × IsOrdered back × SameStatus back rs

undo :
    (rs : List MemoryRegion) (kb p : ℕ) (out : List MemoryRegion)
    → Block rs kb p out
    → p ≢ 0
    → Undone rs out p
undo rs kb p out b nz =
    subst (λ o. Undone rs o p) (sym h.splits) (subst (Undone rs l) h.base at_base)
  where
    h : Holds p (pages_for kb) out
    h = b.holds

    l : List MemoryRegion
    l = h.before ++ h.region ∷ h.after

    aligned : h.region.base % 4096 ≡ 0
    aligned = rw h.base b.aligned

    at_base : Undone rs l h.region.base
    at_base =
        let (back, runs, ord, st) =
          pmm_free_lem h.before h.region h.after (subst IsOrdered h.splits b.ordered) h.held
            (λ e. nz (sym h.base ∙ e)) aligned in
        (
          back,
          runs,
          ord,
          record {
            usable = λ a. ground (arith, st a, h.splits, h.base, h.size, b.taken.usable a);
            held = λ a. ground (arith, st a, h.splits, h.base, h.size, b.taken.held a);
          },
        )

-- A block that `pmm_alloc` answers from an ordered list, when its calls of `malloc` succeed, and
-- that does not lie at address 0, is given back by `pmm_free`: the call ends, the list is ordered,
-- and every address has the status that it had before the allocation.
pub pmm_free-pmm_alloc :
    (rs : List MemoryRegion) (kb p : ℕ) (m m' : Mallocs) (out : List MemoryRegion)
    → IsOrdered rs
    → IsRequest kb
    → pmm_alloc rs kb (enough m) ≡ (some p, out, m')
    → p ≢ 0
    → (back : List MemoryRegion) × (pmm_free out p ≡ some back)
      × IsOrdered back
      × SameStatus back rs
pmm_free-pmm_alloc rs kb p m m' out h q e nz =
    undo rs kb p out (subst (Answered rs kb) e (Answer-Answered (pmm_alloc_lem rs kb m h q))) nz
