-- ===== src/Heap/Chain.antt =====
-- The headers in memory as the list of the abstract blocks.
pub mod Release
pub mod Take
pub mod Append
use thuban.Base.{
  ℕ, zero, suc, ◌+◌, ◌-◌, ◌*◌, ◌/◌, ◌%◌, ◌^◌, ◌≤◌, ◌<◌, ◌≡◌, ◌≢◌, ◌⊎◌, refl, ap, sym, ◌∙◌, Bool,
  true, false, not, ◌&&◌, List, [], ◌∷◌, Option, none, some, leb, ltb, ◌==◌, if◌then◌else◌, length,
  Bool-cases, inl, inr, arith,
}
use mathlib.Core.Option
use mathlib.Core.Path.{subst}
use Prim.{Unit, tt}
use thuban.Base.Store.{update, update_self, update_ne}
use thuban.Heap.{
  Block, null, header_size, heap_magic, new_block, set_prev, Search, corrupt, found, exhausted,
  find, split, absorb, coalesce, last, add64, sub64,
}
use thuban.Heap.Cells.{
  Cell, first, end, Ordered, In, taken, rest, fits, take_cell, alloc, join, join_at, join_before,
  release_at,
}
use thuban.Heap.Cells.Space.{
  FirstFit, here, skip, NoFit, Allocated, fits-size, Ordered-end, Ordered-down,
}

-- The header of a block between two others.
abbrev pub header : (prev next : ℕ) → Cell → Block
header prev next c = record {
  magic = heap_magic;
  size = c.size;
  free = c.free;
  next = next;
  prev = prev;
}

-- The headers of the blocks, linked in both directions, behind the block at `prev`.
abbrev pub Chain : (ℕ → Block) → (prev : ℕ) → List Cell → Type 0
Chain blocks prev [] = Unit
Chain blocks prev (c ∷ cs) = (blocks c.addr ≡ header prev (first cs) c) × Chain blocks c.addr cs

-- `p->prev = prev`
abbrev relinked : ℕ → Block → Block
relinked prev b = record b { prev = prev }

-- The list depends only on the headers between its first address and its end.
pub Chain-between :
    (blocks blocks' : ℕ → Block) (prev lo hi : ℕ) (cells : List Cell)
    → Ordered lo cells hi
    → ((a : ℕ) → lo ≤ a → a < hi → blocks' a ≡ blocks a)
    → Chain blocks prev cells
    → Chain blocks' prev cells
Chain-between blocks blocks' prev lo hi [] o same h = tt
Chain-between blocks blocks' prev lo hi (c ∷ cs) o same h =
    let up = Ordered-end (end c) hi cs o.1 in
    (
      same c.addr o.0 (omega (arith, up)) ∙ h.0,
      Chain-between blocks blocks' c.addr (end c) hi cs o.1 (λ a l u. same a (omega (arith, o.0)) u)
          h.1,
    )

pub Chain-congr :
    (blocks blocks' : ℕ → Block) (prev lo hi : ℕ) (cells : List Cell)
    → Ordered lo cells hi
    → ((a : ℕ) → lo ≤ a → blocks' a ≡ blocks a)
    → Chain blocks prev cells
    → Chain blocks' prev cells
Chain-congr blocks blocks' prev lo hi cells o same h =
    Chain-between blocks blocks' prev lo hi cells o (λ a l u. same a l) h

-- `set_prev` on the first block puts the list behind another.
pub Chain-set_prev :
    (blocks : ℕ → Block) (prev prev' lo hi : ℕ) (cells : List Cell)
    → 0 < lo
    → Ordered lo cells hi
    → Chain blocks prev cells
    → Chain (set_prev (first cells) prev' blocks) prev' cells
unfolding set_prev
Chain-set_prev blocks prev prev' lo hi [] pos o h = tt
Chain-set_prev blocks prev prev' lo hi (c ∷ cs) pos o h =
    let given : (c.addr == null) ≡ false = ground (arith, o.0) in
    let linked = update blocks c.addr (relinked prev' (blocks c.addr)) in
    let written : set_prev c.addr prev' blocks ≡ linked = rw given refl in
    subst (λ (bs : ℕ → Block). Chain bs prev' (c ∷ cs)) (sym written)
      (
        update_self blocks c.addr (relinked prev' (blocks c.addr)) ∙ ap (relinked prev') h.0,
        Chain-congr blocks linked c.addr (end c) hi cs o.1
            (λ a l. update_ne blocks c.addr a (relinked prev' (blocks c.addr)) (omega arith)) h.1,
      )

-- It writes nothing below the list.
pub set_prev-below :
    (blocks : ℕ → Block) (prev lo hi : ℕ) (cells : List Cell) (a : ℕ)
    → Ordered lo cells hi
    → a < lo
    → set_prev (first cells) prev blocks a ≡ blocks a
unfolding set_prev
set_prev-below blocks prev lo hi [] a o l = refl
set_prev-below blocks prev lo hi (c ∷ cs) a o l = elim (Bool-cases (c.addr == null)) [
  | inl e ↦ rw e refl
  | inr e ↦ rw e (update_ne blocks c.addr a (relinked prev (blocks c.addr)) (omega (arith, o.0)))
]

-- `find` finds the block that `alloc` takes.
unfoldable pub search_result : Option (Cell × List Cell) → Search
search_result none = exhausted
search_result (some (t, ds)) = found t.addr

found-later :
    (c : Cell) (o : Option (Cell × List Cell))
    → search_result (Option.map (λ (t, ds). (t, c ∷ ds)) o) ≡ search_result o
unfolding search_result
found-later c none = refl
found-later c (some r) = refl

pub find-alloc :
    (f size prev lo hi : ℕ) (blocks : ℕ → Block) (cells : List Cell)
    → length cells < f
    → 0 < lo
    → Ordered lo cells hi
    → Chain blocks prev cells
    → find f blocks size (first cells) ≡ some (search_result (alloc size cells))
unfolding find alloc search_result
find-alloc zero size prev lo hi blocks cells l pos o h = absurd (omega arith)
find-alloc (suc f) size prev lo hi blocks [] l pos o h = refl
find-alloc (suc f) size prev lo hi blocks (c ∷ cs) l pos o h =
    let given : (c.addr == null) ≡ false = ground (arith, o.0) in
    let ih =
      find-alloc f size c.addr (end c) hi blocks cs (omega arith) (omega (arith, o.0)) o.1 h.1 in
    elim (Bool-cases (fits size c)) [
      | inl e ↦ rw (given, h.0, e) refl
      | inr e ↦ rw (given, h.0, e) (ih ∙ ap some (sym (found-later c (alloc size cs))))
    ]

-- Nothing below the list changed, and the headers are now those of `ds`.
pub record Moved (lo prev : ℕ) (blocks blocks' : ℕ → Block) (ds : List Cell) : Type 0 where
  pub below : (a : ℕ) → a < lo → blocks' a ≡ blocks a
  pub chain : Chain blocks' prev ds

-- What holds behind a block that is left alone holds from that block on.
pub Moved-cons :
    (lo prev hi : ℕ) (blocks blocks' : ℕ → Block) (c : Cell) (cs ds : List Cell)
    → Ordered lo (c ∷ cs) hi
    → first ds ≡ first cs
    → Chain blocks prev (c ∷ cs)
    → Moved (end c) c.addr blocks blocks' ds
    → Moved lo prev blocks blocks' (c ∷ ds)
Moved-cons lo prev hi blocks blocks' c cs ds o same h m = record {
  below = λ a l. m.below a (omega (arith, o.0));
  chain = (m.below c.addr (omega arith) ∙ h.0 ∙ ap (λ n. header prev n c) (sym same), m.chain);
}

-- The new header of a block that takes in another.
abbrev joined_block : Block → Block → Block
joined_block b other = record b {
  size = add64 b.size (add64 header_size other.size);
  next = other.next;
}

-- `block` takes in the block behind it.
pub absorb-Moved :
    (lo prev hi : ℕ) (blocks : ℕ → Block) (c d : Cell) (ds : List Cell)
    → Ordered lo (c ∷ d ∷ ds) hi
    → hi < 2 ^ 64
    → Chain blocks prev (c ∷ d ∷ ds)
    → Moved lo prev blocks
        (absorb c.addr d.addr blocks)
        (record c { size = c.size + header_size + d.size } ∷ ds)
unfolding absorb
absorb-Moved lo prev hi blocks c d ds o top h =
    let cd : Cell = record c { size = c.size + header_size + d.size } in
    let up = Ordered-end (end d) hi ds o.1.1 in
    let size : add64 c.size (add64 header_size d.size) ≡ cd.size = omega (arith, o.0, o.1.0, up) in
    let new = joined_block (blocks c.addr) (blocks d.addr) in
    let joined = update blocks c.addr new in
    let made : new ≡ header prev (first ds) cd =
      rw (h.0, h.1.0) (ap (λ n. header prev (first ds) (record c { size = n })) size) in
    let at = update_self blocks c.addr new ∙ made in
    let kept : Chain joined d.addr ds =
      Chain-congr blocks joined d.addr (end d) hi ds o.1.1
        (λ a l. update_ne blocks c.addr a new (omega (arith, o.1.0))) h.1.1 in
    let next : (joined c.addr).next ≡ first ds = ap (λ b. b.next) at in
    rw next (record {
      below = λ a l.
          set_prev-below joined c.addr (end d) hi ds a o.1.1 (omega (arith, o.0, o.1.0))
          ∙ update_ne blocks c.addr a new (omega (arith, o.0));
      chain = (
        set_prev-below joined c.addr (end d) hi ds c.addr o.1.1 (omega (arith, o.1.0)) ∙ at,
        Chain-set_prev joined d.addr c.addr (end d) hi ds (omega arith) o.1.1 kept,
      );
    })
