-- ===== src/Heap/Chain/Take.antt =====
-- `malloc` on the headers is `alloc` on the abstract blocks.
use thuban.Base.{
  ℕ, ◌+◌, ◌-◌, ◌^◌, ◌≤◌, ◌<◌, ◌≡◌, refl, ap, sym, ◌∙◌, true, false, List, [], ◌∷◌, leb, leb→le,
  Bool-cases, inl, inr, arith,
}
use mathlib.Core.Path.{subst}
use thuban.Base.Store.{update, update_self, update_ne}
use thuban.Heap.{Block, header_size, new_block, set_prev, split, add64, sub64}
use thuban.Heap.Cells.{Cell, first, end, Ordered, rest}
use thuban.Heap.Cells.Space.{FirstFit, here, skip, Ordered-end, fits-size, Ordered-end}
use thuban.Heap.Chain.{
  header, Chain, Chain-congr, Chain-set_prev, set_prev-below, Moved, Moved-cons,
}

-- `current->free = 0`, behind the split.
abbrev pub take_at : ℕ → ℕ → (ℕ → Block) → ℕ → Block
take_at size a blocks = let bs = split size a blocks in update bs a (record (bs a) { free = false })

-- The last write, on a block that is already linked as the list wants it.
claim-Moved :
    (lo prev hi : ℕ) (blocks bs : ℕ → Block) (c t : Cell) (ds : List Cell) (b : Block)
    → lo ≤ t.addr
    → Ordered (end t) ds hi
    → c.addr ≡ t.addr
    → ((a : ℕ) → a < lo → bs a ≡ blocks a)
    → b ≡ header prev (first ds) t
    → Chain bs t.addr ds
    → Moved lo prev blocks (update bs t.addr b) (t ∷ ds)
claim-Moved lo prev hi blocks bs c t ds b above o same below made h = record {
  below = λ a l. update_ne bs t.addr a b (omega arith) ∙ below a l;
  chain = (
    update_self bs t.addr b ∙ made,
    Chain-congr bs (update bs t.addr b) t.addr (end t) hi ds o
        (λ a l. update_ne bs t.addr a b (omega arith)) h,
  );
}

-- The header of the rest, and of the block, after a split.
module _ (size : ℕ) where
  whole-Moved :
      (lo prev hi : ℕ) (blocks : ℕ → Block) (c : Cell) (cs : List Cell)
      → 0 < lo
      → Ordered lo (c ∷ cs) hi
      → hi + 256 ≤ 2 ^ 64
      → Chain blocks prev (c ∷ cs)
      → size ≤ c.size
      → leb (size + 104) c.size ≡ false
      → Moved lo prev blocks (take_at size c.addr blocks) (record c { free = false } ∷ cs)
  unfolding split
  whole-Moved lo prev hi blocks c cs pos o top h fit small =
      let up = Ordered-end (end c) hi cs o.1 in
      let at : (blocks c.addr).size ≡ c.size = ap (λ b. b.size) h.0 in
      let no : leb (add64 (add64 size header_size) 64) (blocks c.addr).size ≡ false =
        ground (arith, at, up, o.0) in
      let t : Cell = record c { free = false } in
      let made : record (blocks c.addr) { free = false } ≡ header prev (first cs) t = rw h.0 refl in
      rw no (claim-Moved lo prev hi blocks blocks c t cs _ o.0 o.1 refl (λ a l. refl) made h.1)

  -- The headers behind the split, before the block itself is written.
  abbrev linked_rest : (ℕ → Block) → Cell → ℕ → ℕ → Block
  linked_rest blocks c next = set_prev next (c.addr + header_size + size) (
      update blocks (c.addr + header_size + size)
        (new_block (sub64 (sub64 c.size size) header_size) next c.addr))

  linked_rest-Chain :
      (lo prev hi : ℕ) (blocks : ℕ → Block) (c : Cell) (cs : List Cell)
      → 0 < lo
      → Ordered lo (c ∷ cs) hi
      → hi + 256 ≤ 2 ^ 64
      → Chain blocks prev (c ∷ cs)
      → size + 104 ≤ c.size
      → ((a : ℕ) → a < c.addr + header_size + size → linked_rest blocks c (first cs) a ≡ blocks a)
        × Chain (linked_rest blocks c (first cs)) c.addr (rest size c ∷ cs)
  unfolding new_block
  linked_rest-Chain lo prev hi blocks c cs pos o top h big =
      let r = c.addr + header_size + size in
      let up = Ordered-end (end c) hi cs o.1 in
      let new = new_block (sub64 (sub64 c.size size) header_size) (first cs) c.addr in
      let with_rest = update blocks r new in
      let left : sub64 (sub64 c.size size) header_size ≡ c.size - size - header_size =
        omega (arith, up, o.0) in
      let made : new ≡ header c.addr (first cs) (rest size c) =
        ap (λ n. header c.addr (first cs) (record { addr = r; size = n; free = true })) left in
      let kept =
        Chain-congr blocks with_rest c.addr (end c) hi cs o.1
          (λ a l. update_ne blocks r a new (omega arith)) h.1 in
      (
        (λ a l.
            set_prev-below with_rest r (end c) hi cs a o.1 (omega arith)
            ∙ update_ne blocks r a new (omega arith)),
        (
          set_prev-below with_rest r (end c) hi cs r o.1 (omega arith)
              ∙ update_self blocks r new
              ∙ made,
          Chain-set_prev with_rest c.addr r (end c) hi cs (omega arith) o.1 kept,
        ),
      )

  split-Moved :
      (lo prev hi : ℕ) (blocks : ℕ → Block) (c : Cell) (cs : List Cell)
      → 0 < lo
      → Ordered lo (c ∷ cs) hi
      → hi + 256 ≤ 2 ^ 64
      → Chain blocks prev (c ∷ cs)
      → size + 104 ≤ c.size
      → Moved lo prev blocks
          (take_at size c.addr blocks)
          (record c { size = size; free = false } ∷ rest size c ∷ cs)
  unfolding split
  split-Moved lo prev hi blocks c cs pos o top h big =
      let r = c.addr + header_size + size in
      let up = Ordered-end (end c) hi cs o.1 in
      let at : (blocks c.addr).size ≡ c.size = ap (λ b. b.size) h.0 in
      let next : (blocks c.addr).next ≡ first cs = ap (λ b. b.next) h.0 in
      let yes : leb (add64 (add64 size header_size) 64) c.size ≡ true =
        ground (arith, up, o.0, big) in
      let (below, chain) = linked_rest-Chain lo prev hi blocks c cs pos o top h big in
      let linked = linked_rest blocks c (first cs) in
      let new : Block = record (linked c.addr) { next = r; size = size } in
      let bs = update linked c.addr new in
      let same : bs c.addr ≡ new = update_self linked c.addr new in
      let before : linked c.addr ≡ blocks c.addr = below c.addr (omega arith) in
      let t : Cell = record c { size = size; free = false } in
      let made : record (bs c.addr) { free = false } ≡ header prev r t =
        rw (same, before, h.0) refl in
      let back : end (rest size c) ≡ end c = omega (arith, big) in
      let ordered : Ordered (end t) (rest size c ∷ cs) hi =
        (omega arith, subst (λ l. Ordered l cs hi) (sym back) o.1) in
      let behind =
        Chain-congr linked bs c.addr (end t) hi (rest size c ∷ cs) ordered
          (λ a l. update_ne linked c.addr a new (omega arith)) chain in
      rw (at, next, yes)
        (claim-Moved lo prev hi blocks bs c t (rest size c ∷ cs) _ o.0 ordered refl
          (λ a l. update_ne linked c.addr a new (omega (arith, o.0)) ∙ below a (omega (arith, o.0)))
          made behind)

  pub first-FirstFit :
      (cells : List Cell) (t : Cell) (ds : List Cell)
      → FirstFit size cells t ds
      → first ds ≡ first cells
  first-FirstFit [] t ds f = elim f [ ]
  first-FirstFit (c ∷ cs) t ds (here e) = elim (Bool-cases (leb (size + 104) c.size)) [
    | inl big ↦ rw big refl
    | inr small ↦ rw small refl
  ]
  first-FirstFit (c ∷ cs) t ds (skip e f) = refl

  -- The first block that fits is taken, and the headers are those of the list behind that.
  pub take_at-FirstFit :
      (lo prev hi : ℕ) (blocks : ℕ → Block) (cells : List Cell) (t : Cell) (ds : List Cell)
      → 0 < lo
      → Ordered lo cells hi
      → hi + 256 ≤ 2 ^ 64
      → Chain blocks prev cells
      → FirstFit size cells t ds
      → Moved lo prev blocks (take_at size t.addr blocks) ds
  take_at-FirstFit lo prev hi blocks [] t ds pos o top h f = elim f [ ]
  take_at-FirstFit lo prev hi blocks (c ∷ cs) t ds pos o top h (here e) =
      let fit = fits-size size c e in
      elim (Bool-cases (leb (size + 104) c.size)) [
        | inl big ↦
            rw big (split-Moved lo prev hi blocks c cs pos o top h (leb→le (size + 104) c.size big))
        | inr small ↦ rw small (whole-Moved lo prev hi blocks c cs pos o top h fit small)
      ]
  take_at-FirstFit lo prev hi blocks (c ∷ cs) t ds pos o top h (skip {ds = es} e f) =
      let ih = take_at-FirstFit (end c) c.addr hi blocks cs t es (omega arith) o.1 top h.1 f in
      Moved-cons lo prev hi blocks _ c cs es o (first-FirstFit cs t es f) h ih

  -- The header of the block that was taken.
  pub size-FirstFit :
      (blocks : ℕ → Block) (prev : ℕ) (cells : List Cell) (t : Cell) (ds : List Cell)
      → FirstFit size cells t ds
      → Chain blocks prev ds
      → (blocks t.addr).size ≡ t.size
  size-FirstFit blocks prev [] t ds f h = elim f [ ]
  size-FirstFit blocks prev (c ∷ cs) t ds (here e) h = elim (Bool-cases (leb (size + 104) c.size)) [
    | inl big ↦
        let h' : Chain blocks prev (record c { size = size; free = false } ∷ rest size c ∷ cs) =
          rw big at h in
        rw big (ap (λ b. b.size) h'.0)
    | inr small ↦
        let h' : Chain blocks prev (record c { free = false } ∷ cs) = rw small at h in
        rw small (ap (λ b. b.size) h'.0)
  ]
  size-FirstFit blocks prev (c ∷ cs) t ds (skip {ds = es} e f) h =
      size-FirstFit blocks c.addr cs t es f h.1
