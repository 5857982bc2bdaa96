-- ===== src/Vmm/Walk/Level.antt =====
-- One level of `get_pte` with `create`: the table that is there, or the page that becomes it.
use thuban.Base.{
  ℕ, suc, ◌+◌, ◌*◌, ◌%◌, ◌^◌, ◌<◌, ◌≡◌, refl, sym, ap, ◌∙◌, true, false, ◌==◌, if◌then◌else◌, [],
  none, some, inl, inr, arith, Bool-cases, bit_or, ◌||◌, ==_iff,
}
use mathlib.Core.Path.{subst}
use thuban.Base.Store.{update, update_self, update_ne}
use thuban.Pmm.{Pmm, null, pmm_alloc}
use thuban.Pmm.Invariant.{in_use, IsValid, pmm_alloc-IsValid}
use thuban.Pmm.Release.{total-pmm_alloc}
use thuban.Pmm.Alloc.{Allocated, in_range, pmm_alloc-Allocated}
use thuban.Vmm.{
  Vmm, kernel_virt_base, page_present, page_write, present, table_of, set_entry, next_level,
}
use thuban.Vmm.Entries.{made-eq}
use thuban.Vmm.Tree.{boot_entry, descend, present-descend}
use thuban.Vmm.Tree.Grow.{IsShape-grown, descend-grown, entry_of-grown, level-kept, descend-made}
use thuban.Vmm.Walk.{page_at, Full, IsTree, Extends, Extends-refl, Extends-trans, Next}

module _ (p4 : ℕ) where
  present_level-Next :
      (level : ℕ → ℕ) (table index n : ℕ) (v : Vmm)
      → IsTree p4 level v
      → level table ≡ suc (suc n)
      → boot_entry (suc (suc n)) index ≡ false
      → present (v.tables table index) ≡ true
      → Next p4 level table index n v (some (table_of (v.tables table index)), v)
  unfolding Extends-refl descend
  present_level-Next level table index n v s h b e = (
    Extends-refl p4 level v s,
    inr (
      table_of (v.tables table index),
      refl,
      s.shape.below table index n h b e,
      present-descend index [] table v.tables e,
    ),
  )

  -- Pages are taken.
  pub Extends-pmm :
      (level : ℕ → ℕ) (v : Vmm) (q : Pmm)
      → IsTree p4 level v
      → IsValid q
      → q.total_pages ≡ v.pmm.total_pages
      → ((j : ℕ) → in_use v.pmm j ≡ true → in_use q j ≡ true)
      → Extends p4 level v (record v { pmm = q })
  Extends-pmm level v q s valid total more_used = record {
    level_after = level;
    tree = record {
      root = s.root;
      shape = s.shape;
      owned = λ t h.
          let (n, at, below, used) = s.owned t h in
          (n, at, omega (arith, below, total), more_used n used);
      valid = valid;
      first_used = more_used 0 s.first_used;
    };
    more = λ x h. refl;
    entries = λ is j t h c. refl;
    ways = λ is t p k q h c d. d;
    taken = more_used;
    same_next = refl;
    same_total = total;
  }

  -- A page in use that is no table yet becomes one.
  made_table-Next :
      (level : ℕ → ℕ) (table index n page made : ℕ) (v : Vmm)
      → IsTree p4 level v
      → level table ≡ suc (suc n)
      → present (v.tables table index) ≡ false
      → level (page_at page) ≡ 0
      → page < v.pmm.total_pages
      → in_use v.pmm page ≡ true
      → present made ≡ true
      → table_of made ≡ page_at page
      → Next p4 level table index n v (
        some (table_of made),
        record v { tables = set_entry table index made (update v.tables (page_at page) (λ _. 0)) },
      )
  made_table-Next level table index n page made v s h absent unused below used is_made leads =
      let new = page_at page in
      let after = update level new (suc n) in
      let stays =
        level-kept level v.tables s.shape table index made new n h absent unused is_made leads in
      (
        record {
          level_after = after;
          tree = record {
            root = stays p4 (λ z. omega (arith, z, s.root)) ∙ s.root;
            shape =
                IsShape-grown level v.tables s.shape table index made new n h absent unused is_made
                  leads;
            owned = λ t l. elim (Bool-cases (new == t)) [
              | inl e ↦ (page, ground (arith, e), below, used)
              | inr e ↦
                  s.owned t (λ z. l (update_ne level new t (suc n) (λ y. ground (arith, e, y)) ∙ z))
            ];
            valid = s.valid;
            first_used = s.first_used;
          };
          more = stays;
          entries =
              entry_of-grown level v.tables s.shape table index made new n h absent unused is_made
                leads;
          ways =
              descend-grown level v.tables s.shape table index made new n h absent unused is_made
                leads;
          taken = λ j u. u;
          same_next = refl;
          same_total = refl;
        },
        inr (
          table_of made,
          refl,
          ap after leads ∙ update_self level new (suc n),
          descend-made level v.tables s.shape table index made new n h absent unused is_made leads
              ∙ ap some (sym leads),
        ),
      )

  -- Different pages have different addresses.
  page_at-injective : (a b : ℕ) → a < 2 ^ 20 → b < 2 ^ 20 → page_at a ≡ page_at b → a ≡ b
  page_at-injective a b la lb e = omega (arith, e)

  -- A page that was free is not a table.
  free-level :
      (level : ℕ → ℕ) (v : Vmm) (page : ℕ)
      → IsTree p4 level v
      → page < v.pmm.total_pages
      → in_use v.pmm page ≡ false
      → level (page_at page) ≡ 0
  free-level level v page s below free = elim (Bool-cases (level (page_at page) == 0)) [
    | inl e ↦ (==_iff (level (page_at page)) 0).0 e
    | inr e ↦
        let (n, at, below', used) = s.owned (page_at page) (λ z. ground (arith, e, z)) in
        let bound = s.valid.covered in
        let same =
          page_at-injective page n (omega (arith, below, bound)) (omega (arith, below', bound))
            at in
        let clash : false ≡ true = sym free ∙ ap (in_use v.pmm) same ∙ used in absurd cc
  ]

  -- The page that `pmm_alloc` gives becomes the table.
  made_level-Next :
      (level : ℕ → ℕ) (table index n a : ℕ) (v : Vmm) (q : Pmm)
      → IsTree p4 level v
      → level table ≡ suc (suc n)
      → present (v.tables table index) ≡ false
      → IsValid q
      → q.total_pages ≡ v.pmm.total_pages
      → Allocated 1 v.pmm (a, q)
      → Next p4 level table index n v (
          if a == null
          then (none, record v { pmm = q })
          else (let made = bit_or (bit_or a page_present) page_write in
              let zeroed = update v.tables ((a + kernel_virt_base) % 2 ^ 64) (λ _. 0) in
              (
                some (table_of made),
                record v { pmm = q; tables = set_entry table index made zeroed },
              )))
  unfolding Extends-pmm Extends-trans
  made_level-Next level table index n a v q s h absent valid total (inl (z, none_fits, same)) =
      let e : (a == null) ≡ true = (==_iff a null).1 z in
      let full : Full (record v { pmm = q }) = λ j l. same j ∙ elim (Bool-cases (in_use v.pmm j)) [
        | inl used ↦ used
        | inr free ↦ absurd (
            none_fits j (omega (arith, l, total))
              (λ k lo up. subst (λ i. in_use v.pmm i ≡ false) (omega (arith, lo, up)) free))
      ] in
      rw e (Extends-pmm level v q s valid total (λ j u. same j ∙ u), inl (refl, full))
  made_level-Next level table index n a v q s h absent valid total
        (inr (page, at, pos, fits, run, _, same)) =
      let e : (a == null) ≡ false = ground (arith, pos) in
      let given =
        Extends-pmm level v q s valid total
          (λ j u. same j ∙ ap (λ b. in_range page 1 j || b) u ∙ ground arith) in
      let below : page < v.pmm.total_pages = omega (arith, fits) in
      let free : in_use v.pmm page ≡ false = run page (omega arith) (omega arith) in
      let now : in_use q page ≡ true = same page ∙ ground arith in
      let made = page * 4096 + 3 in
      let w : Vmm = record v { pmm = q } in
      let (f, next) =
        made_table-Next level table index n page made w given.tree h absent
          (free-level level v page s below free) (omega (arith, below, total)) now (ground arith)
          (omega arith) in
      rw e (
        subst
          (λ x.
            let m = bit_or (bit_or x page_present) page_write in
            Next p4 level table index n v (
              some (table_of m),
              record v {
                pmm = q;
                tables =
                    set_entry table index m
                      (update v.tables ((x + kernel_virt_base) % 2 ^ 64) (λ _. 0));
              },
            ))
          (sym at)
          (subst
            (λ m. Next p4 level table index n v (
              some (table_of m),
              record v {
                pmm = q;
                tables = set_entry table index m (update v.tables (page_at page) (λ _. 0));
              },
            ))
            (sym (made-eq page)) (Extends-trans p4 level v w _ given f, next)))

  pub next_level-Next :
      (level : ℕ → ℕ) (table index n : ℕ) (v : Vmm)
      → IsTree p4 level v
      → level table ≡ suc (suc n)
      → boot_entry (suc (suc n)) index ≡ false
      → Next p4 level table index n v (next_level true table index v)
  unfolding next_level
  next_level-Next level table index n v s h b = elim (Bool-cases (present (v.tables table index))) [
    | inl e ↦ rw e (present_level-Next level table index n v s h b e)
    | inr e ↦
        let (page, q) = pmm_alloc v.pmm in
        rw e (
          made_level-Next level table index n page v q s h e (pmm_alloc-IsValid s.valid)
            (total-pmm_alloc v.pmm) (pmm_alloc-Allocated v.pmm s.valid s.first_used))
  ]
