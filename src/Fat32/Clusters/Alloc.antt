-- ===== src/Fat32/Clusters/Alloc.antt =====
-- `fat32_alloc_cluster` takes the lowest free cluster.
use thuban.Base.{
  ℕ, zero, suc, ◌+◌, ◌-◌, ◌%◌, ◌^◌, ◌≤◌, ◌<◌, ◌≡◌, ◌≢◌, ◌⊎◌, refl, ◌∙◌, Bool, ◌==◌, ==_iff,
  if◌then◌else◌, Option, arith, Bool-cases, inl, inr,
}
use mathlib.Core.Path.{subst}
use thuban.Fat32.{Fs, eoc_max, alloc_loop, fat32_alloc_cluster, fat32_set_fat_entry, acquire}
use thuban.Fat32.Table.{
  IsTable, InRange, Works, entry, get_next-entry, entry-set, entry-release, acquire-IsTable,
}
use thuban.Fat32.Clusters.{entry_of}

module _ {D : Type 0} (blkdev_read : ℕ → D → Option (ℕ → ℕ) × D)
    (blkdev_write : ℕ → (ℕ → ℕ) → D → Bool × D) (content : D → ℕ → ℕ → ℕ) {sectors : ℕ}
    (w : Works blkdev_read blkdev_write content sectors) where
  abbrev at : Fs D → ℕ → ℕ
  at = entry_of blkdev_read blkdev_write content w

  -- From the cluster `c` on: the first free one is taken, and no other entry changes; or there is
  -- none, and no entry changes.
  abbrev pub Taken : (c : ℕ) → Fs D → ℕ × Fs D → Type 0
  Taken c fs (k, g) =
      ((c ≤ k)
        × InRange fs k
        × (at fs k ≡ 0)
        × ((j : ℕ) → c ≤ j → j < k → at fs j ≢ 0)
        × ((j : ℕ) → InRange fs j → at g j ≡ (if j == k then eoc_max else at fs j)))
      ⊎ ((k ≡ 0)
          × ((j : ℕ) → c ≤ j → j < fs.total_clusters + 2 → at fs j ≢ 0)
          × ((j : ℕ) → at g j ≡ at fs j))

  alloc_loop-Taken :
      (n c : ℕ) (fs : Fs D)
      → IsTable sectors fs
      → 2 ≤ c
      → c + n ≡ fs.total_clusters + 2
      → Taken c fs (alloc_loop blkdev_read blkdev_write n c fs)
  unfolding alloc_loop
  alloc_loop-Taken zero c fs t low e = inr (
    refl,
    (λ j a b. absurd (omega (arith, a, b, e))),
    entry-release blkdev_read blkdev_write content w fs,
  )
  alloc_loop-Taken (suc n) c fs t low e =
      let i : InRange fs c = (low, omega (arith, e)) in
      let read = get_next-entry blkdev_read blkdev_write content w fs c t i in
      elim (Bool-cases (at fs c == 0)) [
        | inl free ↦
            let g = (fat32_set_fat_entry blkdev_read blkdev_write c eoc_max fs).1 in
            rw (read, free)
              (inl (
                (let r : c ≤ c = omega arith in r),
                i,
                (==_iff (at fs c) 0).0 free,
                (λ j a b. absurd (omega (arith, a, b))),
                (λ j k.
                    entry-release blkdev_read blkdev_write content w g j
                    ∙ entry-set blkdev_read blkdev_write content w fs c eoc_max j t i k),
              ))
        | inr taken ↦
            let ne : at fs c ≢ 0 = ground (arith, taken) in
            let first : (P : ℕ → Type 0)
                → P c
                → ((j : ℕ) → c + 1 ≤ j → P j)
                → (j : ℕ) → c ≤ j
                → P j =
              λ P p q j a. elim (Bool-cases (c == j)) [
                | inl same ↦ subst P ((==_iff c j).0 same) p
                | inr other ↦ q j (ground (arith, other, a))
              ] in
            rw (read, taken)
              (elim (alloc_loop-Taken n (c + 1) fs t (omega (arith, low)) (omega (arith, e))) [
                | inl (above, inside, free, before, after) ↦ inl (
                  omega (arith, above),
                  inside,
                  free,
                  (λ j a b.
                      first
                        (λ x.
                          x < (alloc_loop blkdev_read blkdev_write n (c + 1) fs).0 → at fs x ≢ 0)
                        (λ _. ne) before j a b),
                  after,
                )
                | inr (zero_result, all, same) ↦ inr (
                  zero_result,
                  (λ j a b.
                      first (λ x. x < fs.total_clusters + 2 → at fs x ≢ 0) (λ _. ne) all j a b),
                  same,
                )
              ])
      ]

  -- On a device that works on its sectors, for a table on the device, without a cache:
  -- `fat32_alloc_cluster` returns the lowest free cluster, whose entry now ends a chain, and leaves
  -- every other entry; or it returns 0, no cluster is free, and no entry changes.
  pub fat32_alloc_cluster-Taken :
      (fs : Fs D)
      → IsTable sectors fs
      → Taken 2 fs (fat32_alloc_cluster blkdev_read blkdev_write fs)
  unfolding fat32_alloc_cluster acquire entry
  fat32_alloc_cluster-Taken fs t =
      alloc_loop-Taken ((fs.total_clusters + 2) % 2 ^ 32 - 2) 2 (acquire fs) (acquire-IsTable fs t)
        (omega arith) (omega (arith, t.small))
