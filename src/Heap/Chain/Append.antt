-- ===== src/Heap/Chain/Append.antt =====
-- A new block behind the last one.
use thuban.Base.{
  ℕ, zero, suc, ◌≤◌, ◌<◌, ◌≡◌, refl, ap, ◌∙◌, true, false, List, [], ◌∷◌, ◌++◌, some, ◌==◌, length,
  arith,
}
use Prim.{tt}
use thuban.Base.Store.{update, update_self, update_ne}
use thuban.Heap.{Block, null, new_block, last}
use thuban.Heap.Cells.{Cell, end, Ordered}
use thuban.Heap.Chain.{header, Chain, Moved, Moved-cons}

-- The last address of the list.
pub last_addr : Cell → List Cell → ℕ
last_addr c [] = c.addr
last_addr c (d ∷ ds) = last_addr d ds

pub last-last_addr :
    (f prev lo hi : ℕ) (blocks : ℕ → Block) (c : Cell) (cs : List Cell)
    → length cs < f
    → 0 < lo
    → Ordered lo (c ∷ cs) hi
    → Chain blocks prev (c ∷ cs)
    → last f blocks c.addr ≡ some (last_addr c cs)
unfolding last last_addr
last-last_addr zero prev lo hi blocks c cs l pos o h = absurd (omega arith)
last-last_addr (suc f) prev lo hi blocks c [] l pos o h = rw h.0 refl
last-last_addr (suc f) prev lo hi blocks c (d ∷ ds) l pos o h =
    let next : (blocks c.addr).next ≡ d.addr = ap (λ b. b.next) h.0 in
    let given : (d.addr == null) ≡ false = ground (arith, o.0, o.1.0) in
    rw (next, given)
      (last-last_addr f c.addr (end c) hi blocks d ds (omega arith) (omega arith) o.1 h.1)

-- The three writes of `append_block`.
abbrev pub appended : (new_mem size last_block : ℕ) → (ℕ → Block) → ℕ → Block
appended new_mem size last_block blocks =
    let bs = update blocks new_mem (new_block size null null) in
    let linked = update bs last_block (record (bs last_block) { next = new_mem }) in
    update linked new_mem (record (linked new_mem) { prev = last_block })

abbrev pub fresh : ℕ → ℕ → Cell
fresh p size = record { addr = p; size = size; free = true }

pub appended-Moved :
    (lo prev hi p size : ℕ) (blocks : ℕ → Block) (c : Cell) (cs : List Cell)
    → Ordered lo (c ∷ cs) hi
    → hi ≤ p
    → Chain blocks prev (c ∷ cs)
    → Moved lo prev blocks (appended p size (last_addr c cs) blocks) (c ∷ cs ++ fresh p size ∷ [])
unfolding last_addr new_block
appended-Moved lo prev hi p size blocks c [] o above h =
    let new = new_block size null null in
    let bs = update blocks p new in
    let before : bs c.addr ≡ header prev null c =
      update_ne blocks p c.addr new (omega (arith, o.1)) ∙ h.0 in
    let next : Block = record (bs c.addr) { next = p } in
    let linked = update bs c.addr next in
    let there : linked p ≡ new =
      update_ne bs c.addr p next (omega (arith, o.1)) ∙ update_self blocks p new in
    let back : Block = record (linked p) { prev = c.addr } in
    let made : next ≡ header prev p c = rw before refl in
    let made_back : back ≡ header c.addr null (fresh p size) = rw there refl in
    record {
      below = λ a l.
          update_ne linked p a back (omega (arith, o.0, o.1))
          ∙ update_ne bs c.addr a next (omega (arith, o.0))
          ∙ update_ne blocks p a new (omega (arith, o.0, o.1));
      chain = (
        update_ne linked p c.addr back (omega (arith, o.1)) ∙ update_self bs c.addr next ∙ made,
        (update_self linked p back ∙ made_back, tt),
      );
    }
appended-Moved lo prev hi p size blocks c (d ∷ ds) o above h =
    Moved-cons lo prev hi blocks _ c (d ∷ ds) (d ∷ ds ++ fresh p size ∷ []) o refl h
      (appended-Moved (end c) c.addr hi p size blocks d ds o.1 above h.1)
