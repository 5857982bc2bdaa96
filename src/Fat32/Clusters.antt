-- ===== src/Fat32/Clusters.antt =====
-- Freeing a cluster on a device that works, and the clusters that are in use.
pub mod Chain
pub mod Alloc
use thuban.Base.{
  ℕ, zero, suc, ◌+◌, ◌-◌, ◌*◌, ◌/◌, ◌%◌, ◌^◌, ◌≤◌, ◌<◌, ◌≡◌, ◌≢◌, ◌⊎◌, refl, ap, sym, ◌∙◌, Bool,
  true, false, not, ◌&&◌, ◌||◌, Option, none, some, ltb, leb, leb→le, ltb→lt, ◌==◌, ==_iff,
  if◌then◌else◌, arith, Bool-cases, inl, inr,
}
use thuban.Fat32.{
  Fs, eoc_min, eoc_max, low_28, out_of_range, fat32_get_next_cluster, fat32_set_fat_entry,
  alloc_loop, fat32_alloc_cluster, fat32_free_cluster, fat32_free_chain, acquire, release,
}
use thuban.Fat32.Table.{
  IsTable, InRange, Works, entry, get_next-entry, get_next-outside, entry-set, set_entry-IsTable,
  entry-acquire, entry-release, acquire-IsTable, release-IsTable, out_of_range-inside,
  out_of_range-outside,
}

-- How many of the first `n` clusters have an entry that is not 0; the first cluster is 2.
pub used : ℕ → (ℕ → ℕ) → ℕ
used zero f = 0
used (suc n) f = (if f (n + 2) == 0 then 0 else 1) + used n f

pub used-le : (n : ℕ) (f : ℕ → ℕ) → used n f ≤ n
unfolding used
used-le zero f = omega arith
used-le (suc n) f = ground (arith, used-le n f)

used-same : (n : ℕ) (f g : ℕ → ℕ) → ((k : ℕ) → k < n → g (k + 2) ≡ f (k + 2)) → used n g ≡ used n f
unfolding used
used-same zero f g h = refl
used-same (suc n) f g h = rw (h n (omega arith), used-same n f g (λ k l. h k (omega arith))) refl

-- Clearing an entry that was not 0 leaves one less.
pub used-clear :
    (n c : ℕ) (f g : ℕ → ℕ)
    → ((k : ℕ) → k < n → g (k + 2) ≡ (if (k + 2) == c then 0 else f (k + 2)))
    → 2 ≤ c
    → c < n + 2
    → f c ≢ 0
    → used n g + 1 ≡ used n f
unfolding used
used-clear zero c f g h low high ne = absurd (omega arith)
used-clear (suc n) c f g h low high ne = elim (Bool-cases ((n + 2) == c)) [
  | inl e ↦
      let here : n + 2 ≡ c = (==_iff (n + 2) c).0 e in
      let cleared : g (n + 2) ≡ 0 = h n (omega arith) ∙ rw e refl in
      let was : (f (n + 2) == 0) ≡ false = ground (arith, ap f here, ne) in
      let below = used-same n f g (λ k l. h k (omega arith) ∙ ground (arith, here, l)) in
      rw (cleared, was, below) (omega arith)
  | inr e ↦
      let kept : g (n + 2) ≡ f (n + 2) = h n (omega arith) ∙ rw e refl in
      let ih = used-clear n c f g (λ k l. h k (omega arith)) low (ground (arith, e, high)) ne in
      rw kept (omega (arith, ih))
]

module _ {D : Type 0} (blkdev_read : ℕ → D → Option (ℕ → ℕ) × D)
    (blkdev_write : ℕ → (ℕ → ℕ) → D → Bool × D) (content : D → ℕ → ℕ → ℕ) {sectors : ℕ}
    (w : Works blkdev_read blkdev_write content sectors) where
  abbrev pub entry_of : Fs D → ℕ → ℕ
  entry_of = entry blkdev_read blkdev_write content w

  abbrev cleared : ℕ → Fs D → Fs D
  cleared c fs = (fat32_set_fat_entry blkdev_read blkdev_write c 0 (acquire fs)).1

  free_cluster-inside :
      (fs : Fs D) (c : ℕ)
      → IsTable sectors fs
      → InRange fs c
      → fat32_free_cluster blkdev_read blkdev_write c fs ≡ release (cleared c fs)
  unfolding fat32_free_cluster
  free_cluster-inside fs c t i =
      rw (out_of_range-inside blkdev_read blkdev_write content w fs c t i) refl

  -- Freeing a cluster clears its entry and no other.
  pub entry-free_cluster :
      (fs : Fs D) (c j : ℕ)
      → IsTable sectors fs
      → InRange fs c
      → InRange fs j
      → entry_of (fat32_free_cluster blkdev_read blkdev_write c fs) j
        ≡ (if j == c then 0 else entry_of fs j)
  unfolding acquire
  entry-free_cluster fs c j t i k =
      ap (λ (g : Fs D). entry_of g j) (free_cluster-inside fs c t i)
      ∙ entry-release blkdev_read blkdev_write content w (cleared c fs) j
      ∙ entry-set blkdev_read blkdev_write content w (acquire fs) c 0 j (acquire-IsTable fs t) i k
      ∙ ap (λ n. if j == c then low_28 0 else n)
          (entry-acquire blkdev_read blkdev_write content w fs j)

  pub free_cluster-IsTable :
      (fs : Fs D) (c : ℕ)
      → IsTable sectors fs
      → InRange fs c
      → let g = fat32_free_cluster blkdev_read blkdev_write c fs in
        IsTable sectors g × (g.total_clusters ≡ fs.total_clusters)
  unfolding acquire release
  free_cluster-IsTable fs c t i =
      let (u, e) =
        set_entry-IsTable blkdev_read blkdev_write content w (acquire fs) c 0 (acquire-IsTable fs t)
          i in
      rw (free_cluster-inside fs c t i) (release-IsTable (cleared c fs) u, e)

  -- The walk ends at what is not a cluster.
  pub free_chain-stops :
      (f c : ℕ) (fs : Fs D)
      → (leb 2 c && ltb c eoc_min) ≡ false
      → fat32_free_chain blkdev_read blkdev_write (suc f) c fs ≡ some fs
  unfolding fat32_free_chain
  free_chain-stops f c fs e = rw e refl

  pub free_chain-walks :
      (f c : ℕ) (fs : Fs D)
      → IsTable sectors fs
      → InRange fs c
      → fat32_free_chain blkdev_read blkdev_write (suc f) c fs
        ≡ fat32_free_chain blkdev_read blkdev_write f
            (entry_of fs c)
            (fat32_free_cluster blkdev_read blkdev_write c fs)
  unfolding fat32_free_chain
  free_chain-walks f c fs t i =
      let go : (leb 2 c && ltb c eoc_min) ≡ true = ground (arith, t.small, i.0, i.1) in
      rw (go, get_next-entry blkdev_read blkdev_write content w fs c t i) refl

  pub free_chain-leaves :
      (f c : ℕ) (fs : Fs D)
      → IsTable sectors fs
      → (leb 2 c && ltb c eoc_min) ≡ true
      → fs.total_clusters + 2 ≤ c
      → fat32_free_chain blkdev_read blkdev_write (suc (suc f)) c fs ≡ some fs
  unfolding fat32_free_chain fat32_free_cluster
  free_chain-leaves f c fs t go high =
      let out =
        out_of_range-outside blkdev_read blkdev_write content w fs c t (ground (arith, go)) high in
      rw (go, get_next-outside blkdev_read blkdev_write content w fs c out, out) refl

  -- What the walk does to the entries: each is as before, or 0.
  abbrev pub Freed : Fs D → Fs D → Type 0
  Freed fs g = (j : ℕ) → InRange fs j → (entry_of g j ≡ 0) ⊎ (entry_of g j ≡ entry_of fs j)
