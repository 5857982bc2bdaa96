-- ===== src/Heap/Cells/Space.antt =====
-- Taking and releasing a block keep the blocks apart, and move their bytes between free and in use.
use thuban.Base.{
  ℕ, ◌+◌, ◌≤◌, ◌≡◌, refl, ap, sym, ◌∙◌, true, false, List, [], ◌∷◌, Option, none, some, leb, ◌==◌,
  if◌then◌else◌, Bool-cases, inl, inr, arith,
}
use mathlib.Core.Option
use mathlib.Core.Path.{subst}
use Prim.{Unit, tt}
use thuban.Heap.{header_size}
use thuban.Heap.Cells.{
  Cell, first, end, Ordered, In, taken, rest, fits, take_cell, alloc, join, join_at, join_before,
  release_at, total, busy,
}

-- The first block that fits is taken: the heap before, the block, and the heap behind.
pub data FirstFit (size : ℕ) : List Cell → Cell → List Cell → Type 0 where
  here :
      {c : Cell} {cs : List Cell}
      → fits size c ≡ true
      → FirstFit size (c ∷ cs) (taken size c) (take_cell size c cs)
  skip :
      {c : Cell} {cs : List Cell} {t : Cell} {ds : List Cell}
      → fits size c ≡ false
      → FirstFit size cs t ds
      → FirstFit size (c ∷ cs) t (c ∷ ds)

-- No block fits.
abbrev pub NoFit : ℕ → List Cell → Type 0
NoFit size [] = Unit
NoFit size (c ∷ cs) = (fits size c ≡ false) × NoFit size cs

-- What `alloc` returns.
abbrev pub Allocated : ℕ → List Cell → Option (Cell × List Cell) → Type 0
Allocated size cells none = NoFit size cells
Allocated size cells (some (t, ds)) = FirstFit size cells t ds

Allocated-skip :
    (size : ℕ) (c : Cell) (cs : List Cell) (o : Option (Cell × List Cell))
    → fits size c ≡ false
    → Allocated size cs o
    → Allocated size (c ∷ cs) (Option.map (λ (t, ds). (t, c ∷ ds)) o)
Allocated-skip size c cs none e h = (e, h)
Allocated-skip size c cs (some r) e h = skip e h

pub alloc-Allocated : (size : ℕ) (cells : List Cell) → Allocated size cells (alloc size cells)
unfolding alloc
alloc-Allocated size [] = tt
alloc-Allocated size (c ∷ cs) = elim (Bool-cases (fits size c)) [
  | inl e ↦ rw (alloc, e) (here e)
  | inr e ↦ rw (alloc, e) (Allocated-skip size c cs (alloc size cs) e (alloc-Allocated size cs))
]

pub fits-size : (size : ℕ) (c : Cell) → fits size c ≡ true → size ≤ c.size
fits-size size c e = ground arith

pub FirstFit-Ordered :
    (size lo hi : ℕ) (cells : List Cell) (t : Cell) (ds : List Cell)
    → FirstFit size cells t ds
    → Ordered lo cells hi
    → Ordered lo ds hi
FirstFit-Ordered size lo hi [] t ds f o = elim f [ ]
FirstFit-Ordered size lo hi (c ∷ cs) t ds (here e) o = elim (Bool-cases (leb (size + 104) c.size)) [
  | inl big ↦
      let at : end (rest size c) ≡ end c = ground (arith, big) in
      rw big (o.0, (omega arith, subst (λ l. Ordered l cs hi) (sym at) o.1))
  | inr small ↦ rw small o
]
FirstFit-Ordered size lo hi (c ∷ cs) t ds (skip {ds = es} e f) o =
    (o.0, FirstFit-Ordered size (end c) hi cs t es f o.1)

pub total-FirstFit :
    (size : ℕ) (cells : List Cell) (t : Cell) (ds : List Cell)
    → FirstFit size cells t ds
    → total ds ≡ total cells
unfolding total
total-FirstFit size [] t ds f = elim f [ ]
total-FirstFit size (c ∷ cs) t ds (here e) = elim (Bool-cases (leb (size + 104) c.size)) [
  | inl big ↦ rw big (ground (arith, big))
  | inr small ↦ rw small refl
]
total-FirstFit size (c ∷ cs) t ds (skip {ds = es} e f) =
    ap (λ n. header_size + c.size + n) (total-FirstFit size cs t es f)

pub busy-FirstFit :
    (size : ℕ) (cells : List Cell) (t : Cell) (ds : List Cell)
    → FirstFit size cells t ds
    → busy ds ≡ busy cells + (header_size + t.size)
unfolding busy
busy-FirstFit size [] t ds f = elim f [ ]
busy-FirstFit size (c ∷ cs) t ds (here e) =
    let was_free : c.free ≡ true = ground (arith, e) in
    elim (Bool-cases (leb (size + 104) c.size)) [
      | inl big ↦ rw (big, was_free) (omega arith)
      | inr small ↦ rw (small, was_free) (omega arith)
    ]
busy-FirstFit size (c ∷ cs) t ds (skip {ds = es} e f) =
    let ih = busy-FirstFit size cs t es f in ground (arith, ih)

pub Ordered-end : (lo hi : ℕ) (cs : List Cell) → Ordered lo cs hi → lo ≤ hi
Ordered-end lo hi [] o = o
Ordered-end lo hi (c ∷ cs) o = omega (arith, o.0, Ordered-end (end c) hi cs o.1)

pub Ordered-down : (l lo hi : ℕ) (cs : List Cell) → l ≤ lo → Ordered lo cs hi → Ordered l cs hi
Ordered-down l lo hi [] h o = omega arith
Ordered-down l lo hi (c ∷ cs) h o = (omega arith, o.1)

join-Ordered :
    (lo hi : ℕ) (c : Cell) (cs : List Cell) → Ordered lo (c ∷ cs) hi → Ordered lo (join c cs) hi
unfolding join
join-Ordered lo hi c [] o = o
join-Ordered lo hi c (d ∷ ds) o = elim (Bool-cases d.free) [
  | inl e ↦
      rw e
        (o.0, Ordered-down (c.addr + 40 + (c.size + 40 + d.size)) (end d) hi ds (omega arith) o.1.1)
  | inr e ↦ rw e o
]

pub join_at-Ordered :
    (a lo hi : ℕ) (cells : List Cell) → Ordered lo cells hi → Ordered lo (join_at a cells) hi
unfolding join_at
join_at-Ordered a lo hi [] o = o
join_at-Ordered a lo hi (c ∷ cs) o = elim (Bool-cases (c.addr == a)) [
  | inl e ↦ rw (join_at, e) (join-Ordered lo hi (record c { free = true }) cs o)
  | inr e ↦ rw (join_at, e) (o.0, join_at-Ordered a (end c) hi cs o.1)
]

join_before-Ordered :
    (a lo hi : ℕ) (cells : List Cell) → Ordered lo cells hi → Ordered lo (join_before a cells) hi
unfolding join_before
join_before-Ordered a lo hi [] o = o
join_before-Ordered a lo hi (c ∷ cs) o = elim (Bool-cases (first cs == a)) [
  | inl e ↦ elim (Bool-cases c.free) [
    | inl f ↦ rw (join_before, e, f) (join-Ordered lo hi (record c { free = true }) cs o)
    | inr f ↦ rw (join_before, e, f) o
  ]
  | inr e ↦ rw (join_before, e) (o.0, join_before-Ordered a (end c) hi cs o.1)
]

pub release_at-Ordered :
    (a lo hi : ℕ) (cells : List Cell) → Ordered lo cells hi → Ordered lo (release_at a cells) hi
unfolding release_at
release_at-Ordered a lo hi cells o =
    let after = join_at-Ordered a lo hi cells o in
    elim (Bool-cases (first cells == a)) [
      | inl e ↦ rw e after
      | inr e ↦ rw e (join_before-Ordered a lo hi (join_at a cells) after)
    ]

total-join : (c : Cell) (cs : List Cell) → total (join c cs) ≡ total (c ∷ cs)
unfolding join total
total-join c [] = refl
total-join c (d ∷ ds) = elim (Bool-cases d.free) [ inl e ↦ rw e (omega arith) | inr e ↦ rw e refl ]

total-join_at : (a : ℕ) (cells : List Cell) → total (join_at a cells) ≡ total cells
unfolding join_at total
total-join_at a [] = refl
total-join_at a (c ∷ cs) = elim (Bool-cases (c.addr == a)) [
  | inl e ↦ rw (join_at, e) (total-join (record c { free = true }) cs)
  | inr e ↦ rw (join_at, e) (ap (λ n. header_size + c.size + n) (total-join_at a cs))
]

total-join_before : (a : ℕ) (cells : List Cell) → total (join_before a cells) ≡ total cells
unfolding join_before total
total-join_before a [] = refl
total-join_before a (c ∷ cs) = elim (Bool-cases (first cs == a)) [
  | inl e ↦ elim (Bool-cases c.free) [
    | inl f ↦ rw (join_before, e, f) (total-join (record c { free = true }) cs)
    | inr f ↦ rw (join_before, e, f) refl
  ]
  | inr e ↦ rw (join_before, e) (ap (λ n. header_size + c.size + n) (total-join_before a cs))
]

pub total-release_at : (a : ℕ) (cells : List Cell) → total (release_at a cells) ≡ total cells
unfolding release_at
total-release_at a cells = elim (Bool-cases (first cells == a)) [
  | inl e ↦ rw e (total-join_at a cells)
  | inr e ↦ rw e (total-join_before a (join_at a cells) ∙ total-join_at a cells)
]

busy-join : (c : Cell) (cs : List Cell) → c.free ≡ true → busy (join c cs) ≡ busy cs
unfolding join busy
busy-join c [] h = rw h (omega arith)
busy-join c (d ∷ ds) h = elim (Bool-cases d.free) [
  | inl e ↦ rw (e, h) refl
  | inr e ↦ rw (e, h) (omega arith)
]

busy-join_at :
    (b : Cell) (cells : List Cell)
    → In b cells
    → b.free ≡ false
    → busy (join_at b.addr cells) + (header_size + b.size) ≡ busy cells
unfolding join_at busy
busy-join_at b [] h f = absurd h
busy-join_at b (c ∷ cs) (inl e) f =
    let hit : (c.addr == b.addr) ≡ true = ground (arith, ap (λ x. x.addr) e) in
    let used : c.free ≡ false = ap (λ x. x.free) e ∙ f in
    let same : c.size ≡ b.size = ap (λ x. x.size) e in
    rw (join_at, hit) (ground (arith, used, same, busy-join (record c { free = true }) cs refl))
busy-join_at b (c ∷ cs) (inr (ne, h)) f =
    let miss : (c.addr == b.addr) ≡ false = ground (arith, ne) in
    rw (join_at, miss) (ground (arith, busy-join_at b cs h f))

busy-join_before : (a : ℕ) (cells : List Cell) → busy (join_before a cells) ≡ busy cells
unfolding join_before busy
busy-join_before a [] = refl
busy-join_before a (c ∷ cs) = elim (Bool-cases (first cs == a)) [
  | inl e ↦ elim (Bool-cases c.free) [
    | inl f ↦ rw (join_before, e, f) (busy-join (record c { free = true }) cs refl ∙ omega arith)
    | inr f ↦ rw (join_before, e, f) refl
  ]
  | inr e ↦
      rw (join_before, e)
        (ap (λ n. (if c.free then 0 else header_size + c.size) + n) (busy-join_before a cs))
]

pub busy-release_at :
    (b : Cell) (cells : List Cell)
    → In b cells
    → b.free ≡ false
    → busy (release_at b.addr cells) + (header_size + b.size) ≡ busy cells
unfolding release_at
busy-release_at b cells h f = elim (Bool-cases (first cells == b.addr)) [
  | inl e ↦ rw e (busy-join_at b cells h f)
  | inr e ↦ rw (e, busy-join_before b.addr (join_at b.addr cells)) (busy-join_at b cells h f)
]
