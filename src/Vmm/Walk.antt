-- ===== src/Vmm/Walk.antt =====
-- The invariant of the tables, and what a search that may make tables keeps.
pub mod Level
pub mod Start
use thuban.Base.{
  ℕ, zero, suc, ◌+◌, ◌-◌, ◌*◌, ◌/◌, ◌%◌, ◌^◌, ◌<◌, ◌≤◌, ◌≡◌, ◌≢◌, refl, sym, ap, ◌∙◌, Bool, true,
  false, not, ◌==◌, if◌then◌else◌, List, [], ◌∷◌, ◌++◌, length, Option, none, some, inl, inr, ◌⊎◌,
  arith, Bool-cases, bit_or, ◌||◌, ==_iff,
}
use mathlib.Core.Path.{subst}
use mathlib.Core.Option.{some-injective}
use thuban.Base.Store.{update, update_self, update_ne}
use thuban.Pmm.{Pmm, null, pmm_alloc}
use thuban.Pmm.Invariant.{in_use, IsValid, pmm_alloc-IsValid}
use thuban.Pmm.Release.{total-pmm_alloc}
use thuban.Pmm.Alloc.{Allocated, in_range, pmm_alloc-Allocated}
use thuban.Vmm.{
  Vmm, kernel_virt_base, page_present, page_write, present, table_of, set_entry, next_level,
  then_level,
}
use thuban.Vmm.Entries.{made-eq}
use thuban.Vmm.Tree.{Clear, descend, entry_of, IsShape, descend-append}
use thuban.Vmm.Tree.Grow.{IsShape-grown, descend-grown, entry_of-grown, level-kept, descend-made}

-- The address of page `n` in the kernel's half.
abbrev pub page_at : ℕ → ℕ
page_at n = (n * 4096 + kernel_virt_base) % 2 ^ 64

-- Is every page in use?
abbrev pub Full : Vmm → Type 0
Full v = (j : ℕ) → j < v.pmm.total_pages → in_use v.pmm j ≡ true

-- The invariant: the tables are a tree below `p4`, each of them a page in use.
pub record IsTree (p4 : ℕ) (level : ℕ → ℕ) (v : Vmm) : Type 0 where
  pub root : level p4 ≡ 4
  pub shape : IsShape level v.tables
  pub owned :
      (t : ℕ)
      → level t ≢ 0
      → (n : ℕ) × (t ≡ page_at n) × (n < v.pmm.total_pages) × (in_use v.pmm n ≡ true)
  pub valid : IsValid v.pmm
  pub first_used : in_use v.pmm 0 ≡ true

module _ (p4 : ℕ) where
  -- `w` has the mappings of `v`, and perhaps more tables and fewer free pages.
  pub record Extends (level : ℕ → ℕ) (v w : Vmm) : Type 0 where
    pub level_after : ℕ → ℕ
    pub tree : IsTree p4 level_after w
    pub more : (x : ℕ) → level x ≢ 0 → level_after x ≡ level x
    pub entries :
        (is : List ℕ) (j t : ℕ)
        → level t ≡ suc (length is)
        → Clear (suc (length is)) is
        → entry_of is j t w.tables ≡ entry_of is j t v.tables
    pub ways :
        (is : List ℕ) (t p k : ℕ)
        → level t ≡ k
        → length is < k
        → Clear k is
        → descend is t v.tables ≡ some p
        → descend is t w.tables ≡ some p
    pub taken : (j : ℕ) → in_use v.pmm j ≡ true → in_use w.pmm j ≡ true
    pub same_next : w.next_virt_addr ≡ v.next_virt_addr
    pub same_total : w.pmm.total_pages ≡ v.pmm.total_pages

  pub Extends-refl : (level : ℕ → ℕ) (v : Vmm) → IsTree p4 level v → Extends level v v
  Extends-refl level v s = record {
    level_after = level;
    tree = s;
    more = λ x h. refl;
    entries = λ is j t h c. refl;
    ways = λ is t p k q h c d. d;
    taken = λ j u. u;
    same_next = refl;
    same_total = refl;
  }

  pub Extends-trans :
      (level : ℕ → ℕ) (u v w : Vmm)
      → (e : Extends level u v) → Extends e.level_after v w
      → Extends level u w
  Extends-trans level u v w e f = record {
    level_after = f.level_after;
    tree = f.tree;
    more = λ x h. f.more x (λ z. h (sym (e.more x h) ∙ z)) ∙ e.more x h;
    entries = λ is j t h c.
        f.entries is j t (e.more t (λ z. omega (arith, z, h)) ∙ h) c ∙ e.entries is j t h c;
    ways = λ is t p k q h c d.
        f.ways is t p k (e.more t (λ z. omega (arith, z, q, h)) ∙ q) h c (e.ways is t p k q h c d);
    taken = λ j used. f.taken j (e.taken j used);
    same_next = f.same_next ∙ e.same_next;
    same_total = f.same_total ∙ e.same_total;
  }

  -- What a search that may make tables leaves: the mappings that there were, and the table that the
  -- indices lead to, at level `n`; or none, when all pages are in use.
  abbrev pub Reached : (level : ℕ → ℕ) (t : ℕ) (is : List ℕ) (n : ℕ) → Vmm → Option ℕ × Vmm → Type 0
  Reached level t is n v (r, w) =
      (e : Extends level v w) × (((r ≡ none) × Full w)
        ⊎ ((p : ℕ) × (r ≡ some p) × (e.level_after p ≡ n) × (descend is t w.tables ≡ some p)))

  abbrev pub Next : (level : ℕ → ℕ) (table index n : ℕ) → Vmm → Option ℕ × Vmm → Type 0
  Next level table index n v x = Reached level table (index ∷ []) (suc n) v x

  -- A search goes on in the table that another one has found.
  pub Reached-then :
      (level : ℕ → ℕ) (t n k : ℕ) (is js : List ℕ) (v : Vmm) (x : Option ℕ × Vmm)
      (next : ℕ → Vmm → Option ℕ × Vmm)
      → (l : ℕ) → level t ≡ l
      → length is < l
      → Clear l is
      → Reached level t is n v x
      → ((after : ℕ → ℕ) (p : ℕ) (w : Vmm)
          → IsTree p4 after w
          → after p ≡ n
          → Reached after p js k w (next p w))
      → Reached level t (is ++ js) k v (then_level x next)
  unfolding Extends-trans
  Reached-then level t n k is js v (none, w) next l lt deep c (e, inl (q, full)) step =
      (e, inl (refl, full))
  Reached-then level t n k is js v (none, w) next l lt deep c (e, inr (p, q, _, _)) step = absurd cc
  Reached-then level t n k is js v (some p, w) next l lt deep c (e, inl (q, _)) step = absurd cc
  Reached-then level t n k is js v (some p, w) next l lt deep c (e, inr (p', q, at, d)) step =
      let same : p' ≡ p = sym (some-injective p p' q) in
      let (f, r) = step e.level_after p w e.tree (ap e.level_after (sym same) ∙ at) in
      let here = e.more t (λ z. omega (arith, z, lt, deep)) ∙ lt in
      let way = f.ways is t p l here deep c (d ∙ ap some same) in
      (
        Extends-trans level v w (next p w).1 e f,
        elim r [
          | inl z ↦ inl z
          | inr (u, found, at_u, rest) ↦
              inr (u, found, at_u, descend-append is js t p (next p w).1.tables way ∙ rest)
        ],
      )
