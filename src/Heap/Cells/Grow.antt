-- ===== src/Heap/Cells/Grow.antt =====
-- A free block behind the last one.
use thuban.Base.{
  ℕ, ◌+◌, ◌≤◌, ◌≡◌, refl, ap, true, List, [], ◌∷◌, ◌++◌, none, some, if◌then◌else◌, arith,
}
use thuban.Heap.{header_size}
use thuban.Heap.Cells.{Cell, end, Ordered, taken, fits, take_cell, alloc, total, busy}
use thuban.Heap.Cells.Space.{FirstFit, here, skip, NoFit}

module _ (n : Cell) where
  pub Ordered-append :
      (lo hi top : ℕ) (cells : List Cell)
      → Ordered lo cells hi
      → hi ≤ n.addr
      → end n ≤ top
      → Ordered lo (cells ++ n ∷ []) top
  Ordered-append lo hi top [] o above u = (omega arith, u)
  Ordered-append lo hi top (c ∷ cs) o above u = (o.0, Ordered-append (end c) hi top cs o.1 above u)

  pub total-append :
      (cells : List Cell) → total (cells ++ n ∷ []) ≡ total cells + (header_size + n.size)
  unfolding total
  total-append [] = omega arith
  total-append (c ∷ cs) = omega (arith, total-append cs)

  pub busy-append : (cells : List Cell) → n.free ≡ true → busy (cells ++ n ∷ []) ≡ busy cells
  unfolding busy
  busy-append [] e = rw e refl
  busy-append (c ∷ cs) e =
      ap (λ k. (if c.free then 0 else header_size + c.size) + k) (busy-append cs e)

  pub FirstFit-append :
      (size : ℕ) (cells : List Cell)
      → NoFit size cells
      → fits size n ≡ true
      → FirstFit size (cells ++ n ∷ []) (taken size n) (cells ++ take_cell size n [])
  FirstFit-append size [] none_fits e = here e
  FirstFit-append size (c ∷ cs) none_fits e =
      skip none_fits.0 (FirstFit-append size cs none_fits.1 e)

pub alloc-FirstFit :
    (size : ℕ) (cells : List Cell) (t : Cell) (ds : List Cell)
    → FirstFit size cells t ds
    → alloc size cells ≡ some (t, ds)
unfolding alloc
alloc-FirstFit size [] t ds f = elim f [ ]
alloc-FirstFit size (c ∷ cs) t ds (here e) = rw (alloc, e) refl
alloc-FirstFit size (c ∷ cs) t ds (skip {ds = es} e f) =
    rw (alloc, e, alloc-FirstFit size cs t es f) refl

pub alloc-NoFit : (size : ℕ) (cells : List Cell) → NoFit size cells → alloc size cells ≡ none
unfolding alloc
alloc-NoFit size [] h = refl
alloc-NoFit size (c ∷ cs) h = rw (alloc, h.0, alloc-NoFit size cs h.1) refl

-- In use, with what the header takes, is never more than the whole.
pub busy-le-total : (cells : List Cell) → busy cells ≤ total cells
unfolding busy total
busy-le-total [] = omega arith
busy-le-total (c ∷ cs) = ground (arith, busy-le-total cs)

pub total-le : (lo hi : ℕ) (cells : List Cell) → Ordered lo cells hi → lo + total cells ≤ hi
unfolding total
total-le lo hi [] o = omega (arith, o)
total-le lo hi (c ∷ cs) o = omega (arith, o.0, total-le (end c) hi cs o.1)
