-- ===== src/Heap/Contract/Gap.antt =====
-- Blocks that follow one another in the list, but not in memory.
use thuban.Base.{
  ℕ, ◌+◌, ◌≤◌, ◌<◌, ◌≡◌, ◌⊎◌, refl, true, false, List, [], ◌∷◌, ◌==◌, inl, inr, arith,
}
use mathlib.Core.Path.{subst}
use thuban.Heap.{Heap, header_size, free}
use thuban.Heap.Cells.{Cell, end, Ordered, join, join_at, release_at}
use thuban.Heap.Contract.{Represents}
use thuban.Heap.Contract.Free.{free-Represents}

-- The byte at `a` belongs to a block.
abbrev pub Covered : ℕ → List Cell → Type 0
Covered a [] = ⊥
Covered a (c ∷ cs) = ((c.addr ≤ a) × (a < end c)) ⊎ Covered a cs

Covered-Ordered :
    (a lo hi : ℕ) (cells : List Cell) → Ordered lo cells hi → a < lo → ¬ Covered a cells
Covered-Ordered a lo hi [] o l c = c
Covered-Ordered a lo hi (c ∷ cs) o l (inl i) = omega (arith, o.0, i.0)
Covered-Ordered a lo hi (c ∷ cs) o l (inr i) =
    Covered-Ordered a (end c) hi cs o.1 (omega (arith, o.0)) i

-- The one block that is left of two.
abbrev pub both : Cell → Cell → Cell
both b d = record b { size = b.size + header_size + d.size; free = true }

released :
    (b d : Cell) (ds : List Cell) → d.free ≡ true → release_at b.addr (b ∷ d ∷ ds) ≡ both b d ∷ ds
unfolding release_at join_at join
released b d ds e = let hit : (b.addr == b.addr) ≡ true = ground arith in rw (hit, e) refl

-- If the first block of the list is in use and the free block behind it in the list does not touch
-- it in memory, the byte behind the first belongs to no block; after the first is freed, it belongs
-- to the block that `coalesce` made of the two.
pub free_joins_gap :
    {W : Type 0} (h : Heap W) (b d : Cell) (ds : List Cell) (hi : ℕ)
    → Represents h (b ∷ d ∷ ds) hi
    → b.free ≡ false
    → d.free ≡ true
    → end b < d.addr
    → (¬ Covered (end b) (b ∷ d ∷ ds))
      × Represents (free (b.addr + header_size) h) (both b d ∷ ds) hi
      × Covered (end b) (both b d ∷ ds)
free_joins_gap h b d ds hi r in_use is_free gap = (
  (λ c. elim c [
    | inl i ↦ omega (arith, i.1)
    | inr i ↦ Covered-Ordered (end b) d.addr hi (d ∷ ds) (omega arith, r.ordered.1.1) gap i
  ]),
  subst (λ (cs : List Cell). Represents (free (b.addr + header_size) h) cs hi)
      (released b d ds is_free) (free-Represents h (b ∷ d ∷ ds) hi b r (inl refl) in_use),
  inl (omega arith, omega arith),
)
