-- ===== src/Heap/Cells/Undo.antt =====
-- Releasing the block that was taken.
use thuban.Base.{
  ℕ, ◌+◌, ◌-◌, ◌≤◌, ◌<◌, ◌≡◌, ◌≢◌, refl, ap, sym, ◌∙◌, true, false, List, [], ◌∷◌, leb, ==_iff,
  ◌==◌, Bool-cases, inl, inr, arith,
}
use Prim.{Unit}
use thuban.Heap.{header_size}
use thuban.Heap.Cells.{
  Cell, first, end, Ordered, In, fits, take_cell, join, join_at, join_before, release_at,
}
use thuban.Heap.Cells.Space.{FirstFit, here, skip}

-- A free block has no free block behind it.
abbrev BusyFirst : List Cell → Type 0
BusyFirst [] = Unit
BusyFirst (d ∷ ds) = d.free ≡ false

abbrev pub IsCoalesced : List Cell → Type 0
IsCoalesced [] = Unit
IsCoalesced (c ∷ cs) = (c.free ≡ true → BusyFirst cs) × IsCoalesced cs

join-BusyFirst : (c : Cell) (cs : List Cell) → BusyFirst cs → join c cs ≡ c ∷ cs
unfolding join
join-BusyFirst c [] h = refl
join-BusyFirst c (d ∷ ds) h = ground (arith, h)

whole_cell :
    (c : Cell) (n : ℕ) → n ≡ c.size → c.free ≡ true → record c { size = n; free = true } ≡ c
whole_cell c n e f =
    ap (λ k. record { addr = c.addr; size = k; free = true }) e
    ∙ ap (λ b. record { addr = c.addr; size = c.size; free = b }) (sym f)

-- The block and the rest that was cut off are one again.
freed-join :
    (size : ℕ) (c : Cell) (cs : List Cell)
    → fits size c ≡ true
    → BusyFirst cs
    → join_at c.addr (take_cell size c cs) ≡ c ∷ cs
unfolding join_at join
freed-join size c cs e h =
    let hit : (c.addr == c.addr) ≡ true = ground arith in
    let was : c.free ≡ true = ground (arith, e) in
    elim (Bool-cases (leb (size + 104) c.size)) [
      | inl big ↦
          let back : size + header_size + (c.size - size - header_size) ≡ c.size =
            ground (arith, big) in
          rw (big, join_at, hit) (ap (λ x. x ∷ cs) (whole_cell c _ back was))
      | inr small ↦
          rw (small, join_at, hit)
            (join-BusyFirst (record c { free = true }) cs h
              ∙ ap (λ x. x ∷ cs) (whole_cell c c.size refl was))
    ]

FirstFit-above :
    (size lo hi : ℕ) (cells : List Cell) (t : Cell) (ds : List Cell)
    → FirstFit size cells t ds
    → Ordered lo cells hi
    → lo ≤ t.addr
FirstFit-above size lo hi [] t ds f o = elim f [ ]
FirstFit-above size lo hi (c ∷ cs) t ds (here e) o = o.0
FirstFit-above size lo hi (c ∷ cs) t ds (skip {ds = es} e f) o =
    omega (arith, o.0, FirstFit-above size (end c) hi cs t es f o.1)

join_at-FirstFit :
    (size lo hi : ℕ) (cells : List Cell) (t : Cell) (ds : List Cell)
    → FirstFit size cells t ds
    → Ordered lo cells hi
    → IsCoalesced cells
    → join_at t.addr ds ≡ cells
unfolding join_at
join_at-FirstFit size lo hi [] t ds f o h = elim f [ ]
join_at-FirstFit size lo hi (c ∷ cs) t ds (here e) o h =
    freed-join size c cs e (h.0 (let was : c.free ≡ true = ground (arith, e) in was))
join_at-FirstFit size lo hi (c ∷ cs) t ds (skip {ds = es} e f) o h =
    let above = FirstFit-above size (end c) hi cs t es f o.1 in
    let miss : (c.addr == t.addr) ≡ false = ground (arith, above) in
    rw (join_at, miss) (ap (λ x. c ∷ x) (join_at-FirstFit size (end c) hi cs t es f o.1 h.1))

first-below :
    (a lo hi : ℕ) (cells : List Cell)
    → 0 < a
    → a < lo
    → Ordered lo cells hi
    → (first cells == a) ≡ false
first-below a lo hi [] pos l o = ground arith
first-below a lo hi (c ∷ cs) pos l o = ground (arith, o.0)

-- The block that fits is free.
BusyFirst-FirstFit :
    (size lo hi : ℕ) (cells : List Cell) (t : Cell) (ds : List Cell)
    → FirstFit size cells t ds
    → Ordered lo cells hi
    → BusyFirst cells
    → first cells ≢ t.addr
BusyFirst-FirstFit size lo hi [] t ds f o h = elim f [ ]
BusyFirst-FirstFit size lo hi (c ∷ cs) t ds (here e) o h = λ z. absurd (ground (arith, e, h))
BusyFirst-FirstFit size lo hi (c ∷ cs) t ds (skip {ds = es} e f) o h =
    λ z. omega (arith, z, FirstFit-above size (end c) hi cs t es f o.1)

-- No block stands before an address below the list.
join_before-below :
    (a lo hi : ℕ) (cells : List Cell)
    → 0 < a
    → a < lo
    → Ordered lo cells hi
    → join_before a cells ≡ cells
unfolding join_before
join_before-below a lo hi [] pos l o = refl
join_before-below a lo hi (c ∷ cs) pos l o =
    let miss = first-below a (end c) hi cs pos (omega (arith, o.0)) o.1 in
    rw (join_before, miss)
      (ap (λ x. c ∷ x) (join_before-below a (end c) hi cs pos (omega (arith, o.0)) o.1))

join_before-FirstFit :
    (size lo hi : ℕ) (cells : List Cell) (t : Cell) (ds : List Cell)
    → 0 < lo
    → FirstFit size cells t ds
    → Ordered lo cells hi
    → IsCoalesced cells
    → join_before t.addr cells ≡ cells
unfolding join_before
join_before-FirstFit size lo hi [] t ds pos f o h = elim f [ ]
join_before-FirstFit size lo hi (c ∷ cs) t ds pos (here e) o h =
    let miss = first-below c.addr (end c) hi cs (omega (arith, o.0)) (omega arith) o.1 in
    rw (join_before, miss)
      (ap (λ x. c ∷ x)
        (join_before-below c.addr (end c) hi cs (omega (arith, o.0)) (omega arith) o.1))
join_before-FirstFit size lo hi (c ∷ cs) t ds pos (skip {ds = es} e f) o h =
    let ih = join_before-FirstFit size (end c) hi cs t es (omega (arith, o.0)) f o.1 h.1 in
    elim (Bool-cases (first cs == t.addr)) [
      | inl hit ↦ elim (Bool-cases c.free) [
        | inl is_free ↦ absurd (
            BusyFirst-FirstFit size (end c) hi cs t es f o.1 (h.0 is_free)
              ((==_iff (first cs) t.addr).0 hit))
        | inr is_busy ↦ rw (hit, is_busy) refl
      ]
      | inr miss ↦ rw (join_before, miss) (ap (λ x. c ∷ x) ih)
    ]

pub release_at-FirstFit :
    (size lo hi : ℕ) (cells : List Cell) (t : Cell) (ds : List Cell)
    → 0 < lo
    → FirstFit size cells t ds
    → Ordered lo cells hi
    → IsCoalesced cells
    → release_at t.addr ds ≡ cells
unfolding release_at
release_at-FirstFit size lo hi cells t ds pos f o h =
    let whole = join_at-FirstFit size lo hi cells t ds f o h in
    elim (Bool-cases (first ds == t.addr)) [
      | inl e ↦ rw e whole
      | inr e ↦ rw (e, whole) (join_before-FirstFit size lo hi cells t ds pos f o h)
    ]

-- The block that was taken is in the list, and in use.
pub In-FirstFit :
    (size lo hi : ℕ) (cells : List Cell) (t : Cell) (ds : List Cell)
    → FirstFit size cells t ds
    → Ordered lo cells hi
    → In t ds × (t.free ≡ false)
In-FirstFit size lo hi [] t ds f o = elim f [ ]
In-FirstFit size lo hi (c ∷ cs) t ds (here e) o = elim (Bool-cases (leb (size + 104) c.size)) [
  | inl big ↦ rw big (inl refl, refl)
  | inr small ↦ rw small (inl refl, refl)
]
In-FirstFit size lo hi (c ∷ cs) t ds (skip {ds = es} e f) o =
    let above = FirstFit-above size (end c) hi cs t es f o.1 in
    let (i, b) = In-FirstFit size (end c) hi cs t es f o.1 in
    (inr ((λ z. omega (arith, z, above)), i), b)
