-- ===== src/Heap/Chain/Release.antt =====
-- `free` on the headers is `release_at` on the abstract blocks.
use thuban.Base.{
  ℕ, ◌+◌, ◌^◌, ◌<◌, ◌≡◌, ◌≢◌, ◌⊎◌, refl, ap, sym, ◌∙◌, Bool, true, false, List, [], ◌∷◌, ◌==◌,
  if◌then◌else◌, ==_iff, Bool-cases, inl, inr, arith,
}
use mathlib.Core.Path.{subst}
use thuban.Base.Store.{update, update_self, update_ne}
use thuban.Heap.{Block, null, header_size, absorb_next, absorb_prev, coalesce}
use thuban.Heap.Cells.{Cell, first, end, Ordered, In, join, join_at, join_before, release_at}
use thuban.Heap.Cells.Space.{join_at-Ordered}
use thuban.Heap.Chain.{header, Chain, Chain-congr, Moved, Moved-cons, absorb-Moved}

-- A free block at `a`.
abbrev FreeAt : ℕ → List Cell → Type 0
FreeAt a [] = ⊥
FreeAt a (c ∷ cs) = ((c.addr ≡ a) × (c.free ≡ true)) ⊎ ((c.addr ≢ a) × FreeAt a cs)

first-join : (c : Cell) (cs : List Cell) → first (join c cs) ≡ c.addr
unfolding join
first-join c [] = refl
first-join c (d ∷ ds) = elim (Bool-cases d.free) [ inl e ↦ rw e refl | inr e ↦ rw e refl ]

first-join_at : (a : ℕ) (cells : List Cell) → first (join_at a cells) ≡ first cells
unfolding join_at
first-join_at a [] = refl
first-join_at a (c ∷ cs) = elim (Bool-cases (c.addr == a)) [
  | inl e ↦ rw e (first-join (record c { free = true }) cs)
  | inr e ↦ rw e refl
]

first-join_before : (a : ℕ) (cells : List Cell) → first (join_before a cells) ≡ first cells
unfolding join_before
first-join_before a [] = refl
first-join_before a (c ∷ cs) = elim (Bool-cases (first cs == a)) [
  | inl e ↦ elim (Bool-cases c.free) [
    | inl f ↦ rw (join_before, e, f) (first-join (record c { free = true }) cs)
    | inr f ↦ rw (join_before, e, f) refl
  ]
  | inr e ↦ rw (join_before, e) refl
]

join-free :
    (c d : Cell) (ds : List Cell)
    → d.free ≡ true
    → join c (d ∷ ds) ≡ record c { size = c.size + header_size + d.size } ∷ ds
unfolding join
join-free c d ds e = ground (arith, e)

join-busy : (c d : Cell) (ds : List Cell) → d.free ≡ false → join c (d ∷ ds) ≡ c ∷ d ∷ ds
unfolding join
join-busy c d ds e = ground (arith, e)

Moved-refl :
    (lo prev : ℕ) (blocks : ℕ → Block) (ds : List Cell)
    → Chain blocks prev ds
    → Moved lo prev blocks blocks ds
Moved-refl lo prev blocks ds h = record { below = λ a l. refl; chain = h }

absorb_next-Moved :
    (lo prev hi : ℕ) (blocks : ℕ → Block) (c : Cell) (cs : List Cell)
    → 0 < lo
    → Ordered lo (c ∷ cs) hi
    → hi < 2 ^ 64
    → Chain blocks prev (c ∷ cs)
    → Moved lo prev blocks (absorb_next c.addr blocks) (join c cs)
unfolding absorb_next join
absorb_next-Moved lo prev hi blocks c [] pos o top h = rw h.0 (Moved-refl lo prev blocks (c ∷ []) h)
absorb_next-Moved lo prev hi blocks c (d ∷ ds) pos o top h =
    let given : (d.addr == null) ≡ false = ground (arith, o.0, o.1.0) in
    let next : (blocks c.addr).next ≡ d.addr = ap (λ b. b.next) h.0 in
    let free : (blocks d.addr).free ≡ d.free = ap (λ b. b.free) h.1.0 in
    elim (Bool-cases d.free) [
      | inl e ↦
          let is_free = free ∙ e in
          subst (λ (es : List Cell). Moved lo prev blocks (absorb_next c.addr blocks) es)
            (sym (join-free c d ds e))
            (rw (absorb_next, next, given, is_free) (absorb-Moved lo prev hi blocks c d ds o top h))
      | inr e ↦
          let is_busy = free ∙ e in
          subst (λ (es : List Cell). Moved lo prev blocks (absorb_next c.addr blocks) es)
            (sym (join-busy c d ds e))
            (rw (absorb_next, next, given, is_busy) (Moved-refl lo prev blocks (c ∷ d ∷ ds) h))
    ]

-- `b->free = 1`
abbrev pub mark : ℕ → (ℕ → Block) → ℕ → Block
mark a blocks = update blocks a (record (blocks a) { free = true })

mark-Moved :
    (lo prev hi : ℕ) (blocks : ℕ → Block) (c : Cell) (cs : List Cell)
    → Ordered lo (c ∷ cs) hi
    → Chain blocks prev (c ∷ cs)
    → Moved lo prev blocks (mark c.addr blocks) (record c { free = true } ∷ cs)
mark-Moved lo prev hi blocks c cs o h =
    let new : Block = record (blocks c.addr) { free = true } in
    let made : new ≡ header prev (first cs) (record c { free = true }) = rw h.0 refl in
    record {
      below = λ a l. update_ne blocks c.addr a new (omega (arith, o.0));
      chain = (
        update_self blocks c.addr new ∙ made,
        Chain-congr blocks (mark c.addr blocks) c.addr (end c) hi cs o.1
            (λ a l. update_ne blocks c.addr a new (omega arith)) h.1,
      );
    }

Moved-trans :
    (lo prev prev' : ℕ) (bs bs' bs'' : ℕ → Block) (ds es : List Cell)
    → Moved lo prev bs bs' ds
    → Moved lo prev' bs' bs'' es
    → Moved lo prev' bs bs'' es
Moved-trans lo prev prev' bs bs' bs'' ds es m n = record {
  below = λ a l. n.below a l ∙ m.below a l;
  chain = n.chain;
}

-- The block is marked and takes in the one behind it.
join_at-Moved :
    (lo prev hi : ℕ) (blocks : ℕ → Block) (b : Cell) (cells : List Cell)
    → 0 < lo
    → Ordered lo cells hi
    → hi < 2 ^ 64
    → Chain blocks prev cells
    → In b cells
    → Moved lo prev blocks (absorb_next b.addr (mark b.addr blocks)) (join_at b.addr cells)
unfolding join_at
join_at-Moved lo prev hi blocks b [] pos o top h i = absurd i
join_at-Moved lo prev hi blocks b (c ∷ cs) pos o top h (inl e) =
    let same : c.addr ≡ b.addr = ap (λ x. x.addr) e in
    let hit : (c.addr == b.addr) ≡ true = ground (arith, same) in
    let m = mark-Moved lo prev hi blocks c cs o h in
    let freed : Cell = record c { free = true } in
    let n = absorb_next-Moved lo prev hi (mark c.addr blocks) freed cs pos o top m.chain in
    let both =
      Moved-trans lo prev prev blocks (mark c.addr blocks) (absorb_next c.addr (mark c.addr blocks))
        (freed ∷ cs) (join freed cs) m n in
    rw (join_at, hit)
      (subst (λ a. Moved lo prev blocks (absorb_next a (mark a blocks)) (join freed cs)) same both)
join_at-Moved lo prev hi blocks b (c ∷ cs) pos o top h (inr (ne, i)) =
    let miss : (c.addr == b.addr) ≡ false = ground (arith, ne) in
    let ih = join_at-Moved (end c) c.addr hi blocks b cs (omega arith) o.1 top h.1 i in
    rw (join_at, miss)
      (Moved-cons lo prev hi blocks _ c cs (join_at b.addr cs) o (first-join_at b.addr cs) h ih)

FreeAt-join : (c : Cell) (cs : List Cell) → c.free ≡ true → FreeAt c.addr (join c cs)
unfolding join
FreeAt-join c [] e = inl (refl, e)
FreeAt-join c (d ∷ ds) e = elim (Bool-cases d.free) [
  | inl f ↦ rw f (inl (refl, e))
  | inr f ↦ rw f (inl (refl, e))
]

FreeAt-join_at : (b : Cell) (cells : List Cell) → In b cells → FreeAt b.addr (join_at b.addr cells)
unfolding join_at
FreeAt-join_at b [] i = absurd i
FreeAt-join_at b (c ∷ cs) (inl e) =
    let same : c.addr ≡ b.addr = ap (λ x. x.addr) e in
    let hit : (c.addr == b.addr) ≡ true = ground (arith, same) in
    let freed : Cell = record c { free = true } in
    rw (join_at, hit) (subst (λ a. FreeAt a (join freed cs)) same (FreeAt-join freed cs refl))
FreeAt-join_at b (c ∷ cs) (inr (ne, i)) =
    let miss : (c.addr == b.addr) ≡ false = ground (arith, ne) in
    rw (join_at, miss) (inr (ne, FreeAt-join_at b cs i))

-- The block `c` takes in the block behind it if it is free.
absorb_prev-Moved :
    (lo prev hi : ℕ) (blocks : ℕ → Block) (c d : Cell) (ds : List Cell)
    → 0 < lo
    → Ordered lo (c ∷ d ∷ ds) hi
    → hi < 2 ^ 64
    → Chain blocks prev (c ∷ d ∷ ds)
    → d.free ≡ true
    → Moved lo prev blocks (absorb_prev d.addr blocks) (join_before d.addr (c ∷ d ∷ ds))
unfolding absorb_prev join_before
absorb_prev-Moved lo prev hi blocks c d ds pos o top h f =
    let given : (c.addr == null) ≡ false = ground (arith, o.0) in
    let hit : (d.addr == d.addr) ≡ true = ground arith in
    let before : (blocks d.addr).prev ≡ c.addr = ap (λ b. b.prev) h.1.0 in
    let free : (blocks c.addr).free ≡ c.free = ap (λ b. b.free) h.0 in
    let joined : (e : Bool)
        → c.free ≡ e
        → join_before d.addr (c ∷ d ∷ ds) ≡ (if e then join c (d ∷ ds) else c ∷ d ∷ ds) =
      λ e q. ground (arith, q, hit) in
    elim (Bool-cases c.free) [
      | inl e ↦
          let is_free = free ∙ e in
          subst (λ (es : List Cell). Moved lo prev blocks (absorb_prev d.addr blocks) es)
            (sym (joined true e ∙ join-free c d ds f))
            (rw (absorb_prev, before, given, is_free)
              (absorb-Moved lo prev hi blocks c d ds o top h))
      | inr e ↦
          let is_busy = free ∙ e in
          subst (λ (es : List Cell). Moved lo prev blocks (absorb_prev d.addr blocks) es)
            (sym (joined false e))
            (rw (absorb_prev, before, given, is_busy) (Moved-refl lo prev blocks (c ∷ d ∷ ds) h))
    ]

-- The block before takes it in.
join_before-Moved :
    (lo prev hi a : ℕ) (blocks : ℕ → Block) (c : Cell) (cs : List Cell)
    → 0 < lo
    → Ordered lo (c ∷ cs) hi
    → hi < 2 ^ 64
    → Chain blocks prev (c ∷ cs)
    → FreeAt a cs
    → Moved lo prev blocks (absorb_prev a blocks) (join_before a (c ∷ cs))
unfolding join_before
join_before-Moved lo prev hi a blocks c [] pos o top h i = absurd i
join_before-Moved lo prev hi a blocks c (d ∷ ds) pos o top h (inl (e, f)) =
    subst (λ x. Moved lo prev blocks (absorb_prev x blocks) (join_before x (c ∷ d ∷ ds))) e
      (absorb_prev-Moved lo prev hi blocks c d ds pos o top h f)
join_before-Moved lo prev hi a blocks c (d ∷ ds) pos o top h (inr (ne, i)) =
    let miss : (d.addr == a) ≡ false = ground (arith, ne) in
    let ih = join_before-Moved (end c) c.addr hi a blocks d ds (omega arith) o.1 top h.1 i in
    rw (join_before, miss)
      (Moved-cons lo prev hi blocks _ c (d ∷ ds) (join_before a (d ∷ ds)) o
        (first-join_before a (d ∷ ds)) h ih)

-- The first block has none before it.
absorb_prev-first :
    (blocks : ℕ → Block) (a : ℕ) (cells : List Cell)
    → Chain blocks null cells
    → FreeAt a cells
    → first cells ≡ a
    → absorb_prev a blocks ≡ blocks
unfolding absorb_prev
absorb_prev-first blocks a [] h i e = absurd i
absorb_prev-first blocks a (c ∷ cs) h i e =
    let none : (blocks a).prev ≡ null =
      subst (λ x. (blocks x).prev ≡ null) e (ap (λ b. b.prev) h.0) in
    rw none refl

FreeAt-tail : (a : ℕ) (c : Cell) (cs : List Cell) → FreeAt a (c ∷ cs) → c.addr ≢ a → FreeAt a cs
FreeAt-tail a c cs (inl (e, f)) ne = absurd (ne e)
FreeAt-tail a c cs (inr (_, i)) ne = i

join_before-later :
    (lo hi a : ℕ) (blocks : ℕ → Block) (cells : List Cell)
    → 0 < lo
    → Ordered lo cells hi
    → hi < 2 ^ 64
    → Chain blocks null cells
    → FreeAt a cells
    → first cells ≢ a
    → Moved lo null blocks (absorb_prev a blocks) (join_before a cells)
join_before-later lo hi a blocks [] pos o top h i ne = absurd i
join_before-later lo hi a blocks (c ∷ cs) pos o top h i ne =
    join_before-Moved lo null hi a blocks c cs pos o top h (FreeAt-tail a c cs i ne)

pub first-release_at : (a : ℕ) (cells : List Cell) → first (release_at a cells) ≡ first cells
unfolding release_at
first-release_at a cells = elim (Bool-cases (first cells == a)) [
  | inl e ↦ rw e (first-join_at a cells)
  | inr e ↦ rw e (first-join_before a (join_at a cells) ∙ first-join_at a cells)
]

differ : (x y a : ℕ) → x ≡ y → (y == a) ≡ false → x ≢ a
differ x y a e h = ground arith

-- Freeing a block that is in use leaves the headers of the released list.
pub coalesce-release_at :
    (lo hi : ℕ) (blocks : ℕ → Block) (b : Cell) (cells : List Cell)
    → 0 < lo
    → Ordered lo cells hi
    → hi < 2 ^ 64
    → Chain blocks null cells
    → In b cells
    → Chain (coalesce b.addr (mark b.addr blocks)) null (release_at b.addr cells)
unfolding coalesce release_at
coalesce-release_at lo hi blocks b cells pos o top h i =
    let after = join_at b.addr cells in
    let m = join_at-Moved lo null hi blocks b cells pos o top h i in
    let bs = absorb_next b.addr (mark b.addr blocks) in
    let there = FreeAt-join_at b cells i in
    let kept = first-join_at b.addr cells in
    elim (Bool-cases (first cells == b.addr)) [
      | inl e ↦
          let same : first cells ≡ b.addr = (==_iff (first cells) b.addr).0 e in
          rw (release_at, e, absorb_prev-first bs b.addr after m.chain there (kept ∙ same)) m.chain
      | inr e ↦
          let ne : first after ≢ b.addr = differ (first after) (first cells) b.addr kept e in
          rw (release_at, e)
            (join_before-later lo hi b.addr bs after pos (join_at-Ordered b.addr lo hi cells o) top
              m.chain there ne).chain
    ]
