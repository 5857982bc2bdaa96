-- ===== src/Fat32/Table.antt =====
-- The table on a device that works: what a read and a write of an entry do.
use thuban.Base.{
  ℕ, ◌+◌, ◌*◌, ◌/◌, ◌%◌, ◌^◌, ◌≤◌, ◌<◌, ◌≡◌, ◌≢◌, refl, ap, sym, ◌∙◌, Bool, true, false, Option,
  none, some, ltb, ◌==◌, if◌then◌else◌, ==_iff, arith, Bool-cases, inl, inr,
}
use thuban.Base.Store.{update, update_self, update_ne}
use thuban.Fat32.{
  Fs, eoc_min, eoc_max, low_28, merge, out_of_range, fat_sector, fat_word, cached, set_cached,
  fat32_get_next_cluster, write_fat, fat32_set_fat_entry, acquire, release,
}

-- The table has 128 entries in a sector, fits its sectors, and its copy lies behind it, on the
-- device of so many sectors; there is no cache, as `fat32_mount` leaves it.
pub record IsTable {D : Type 0} (sectors : ℕ) (fs : Fs D) : Type 0 where
  pub sector : fs.bytes_per_sector ≡ 512
  pub fits : (fs.total_clusters + 2) * 4 ≤ fs.fat_size_32 * 512
  pub copies : fs.fat_offset + 2 * fs.fat_size_32 < 2 ^ 32
  pub on_device : fs.fat_offset + 2 * fs.fat_size_32 ≤ sectors
  pub small : fs.total_clusters + 2 ≤ eoc_min
  pub no_cache : fs.fat_cache ≡ none

-- Is it a cluster of the file system?
abbrev pub InRange : {D : Type 0} → Fs D → ℕ → Type 0
InRange fs c = (2 ≤ c) × (c < fs.total_clusters + 2)

-- Everything but the device is the same.
pub record SameShape {D : Type 0} (fs fs' : Fs D) : Type 0 where
  pub bytes_per_sector : fs'.bytes_per_sector ≡ fs.bytes_per_sector
  pub fat_size_32 : fs'.fat_size_32 ≡ fs.fat_size_32
  pub fat_offset : fs'.fat_offset ≡ fs.fat_offset
  pub total_clusters : fs'.total_clusters ≡ fs.total_clusters
  pub fat_cache : fs'.fat_cache ≡ fs.fat_cache

-- A device that works on its sectors: `content` is what stands on it, a read returns it, a write
-- replaces one sector. For other sectors nothing is said; blkdev_read and blkdev_write return -1.
pub record Works {D : Type 0} (blkdev_read : ℕ → D → Option (ℕ → ℕ) × D)
    (blkdev_write : ℕ → (ℕ → ℕ) → D → Bool × D) (content : D → ℕ → ℕ → ℕ) (sectors : ℕ)
    : Type 0 where
  pub read : (s : ℕ) (d : D) → s < sectors → blkdev_read s d ≡ (some (content d s), d)
  pub written : (s : ℕ) (b : ℕ → ℕ) (d : D) → s < sectors → (blkdev_write s b d).0 ≡ true
  pub replaced :
      (s : ℕ) (b : ℕ → ℕ) (d : D) (j : ℕ)
      → s < sectors
      → content (blkdev_write s b d).1 j ≡ update (content d) s b j

module _ {D : Type 0} (blkdev_read : ℕ → D → Option (ℕ → ℕ) × D)
    (blkdev_write : ℕ → (ℕ → ℕ) → D → Bool × D) (content : D → ℕ → ℕ → ℕ) {sectors : ℕ}
    (w : Works blkdev_read blkdev_write content sectors) where
  -- The entry of a cluster in the first copy of the table.
  unfoldable pub entry : Fs D → ℕ → ℕ
  entry fs c = low_28 (content fs.disk (fs.fat_offset + c / 128) (c % 128))

  place :
      (fs : Fs D) (c : ℕ)
      → IsTable sectors fs
      → InRange fs c
      → (fat_sector fs c ≡ fs.fat_offset + c / 128)
        × (fat_word fs c ≡ c % 128)
        × (fs.fat_offset + c / 128 < fs.fat_offset + fs.fat_size_32)
        × (out_of_range fs c ≡ false)
  unfolding fat_sector fat_word out_of_range
  place fs c t i = (
    rw t.sector (omega (arith, t.small, t.fits, t.copies, i.0, i.1)),
    rw t.sector (omega (arith, t.small, t.fits, t.copies, i.0, i.1)),
    omega (arith, t.small, t.fits, t.copies, i.0, i.1),
    ground (arith, t.small, i.0, i.1),
  )

  no_entry : (fs : Fs D) (c : ℕ) → IsTable sectors fs → cached fs c ≡ none
  unfolding cached
  no_entry fs c t = rw t.no_cache refl

  set_cached-none : (fs : Fs D) (c v : ℕ) → IsTable sectors fs → set_cached c v fs ≡ fs
  unfolding set_cached
  set_cached-none fs c v t = rw t.no_cache refl

  -- The sector of the entry.
  words_of : Fs D → ℕ → ℕ → ℕ
  words_of fs c = content fs.disk (fs.fat_offset + c / 128)

  read_entry :
      (fs : Fs D) (c : ℕ)
      → IsTable sectors fs
      → InRange fs c
      → blkdev_read (fat_sector fs c) fs.disk ≡ (some (words_of fs c), fs.disk)
  unfolding words_of
  read_entry fs c t i =
      rw (place fs c t i).0
        (w.read (fs.fat_offset + c / 128) fs.disk (omega (arith, (place fs c t i).2, t.on_device)))

  pub get_next-entry :
      (fs : Fs D) (c : ℕ)
      → IsTable sectors fs
      → InRange fs c
      → fat32_get_next_cluster blkdev_read blkdev_write c fs ≡ (entry fs c, fs)
  unfolding fat32_get_next_cluster entry words_of
  get_next-entry fs c t i =
      let (_, word, low, inside) = place fs c t i in
      rw (inside, no_entry fs c t, read_entry fs c t i) (rw (read_entry fs c t i, word) refl)

  pub get_next-outside :
      (fs : Fs D) (c : ℕ)
      → out_of_range fs c ≡ true
      → fat32_get_next_cluster blkdev_read blkdev_write c fs ≡ (eoc_max, fs)
  unfolding fat32_get_next_cluster
  get_next-outside fs c e = rw e refl

  -- The device behind the two writes, and its sectors below the copy.
  two_writes : Fs D → ℕ → (ℕ → ℕ) → D
  two_writes fs s b =
      let disk = (blkdev_write s b fs.disk).1 in
      if ltb 1 fs.num_fats then (blkdev_write ((s + fs.fat_size_32) % 2 ^ 32) b disk).1 else disk

  content-two_writes :
      (fs : Fs D) (s : ℕ) (b : ℕ → ℕ) (j : ℕ)
      → j < fs.fat_offset + fs.fat_size_32
      → fs.fat_offset ≤ s
      → s + fs.fat_size_32 < 2 ^ 32
      → s + fs.fat_size_32 < sectors
      → content (two_writes fs s b) j ≡ update (content fs.disk) s b j
  unfolding two_writes
  content-two_writes fs s b j low above fit on = elim (Bool-cases (ltb 1 fs.num_fats)) [
    | inl e ↦
        let disk = (blkdev_write s b fs.disk).1 in
        let apart =
          update_ne (content disk) ((s + fs.fat_size_32) % 2 ^ 32) j b
            (omega (arith, low, above, fit)) in
        rw e (
          w.replaced ((s + fs.fat_size_32) % 2 ^ 32) b disk j (omega (arith, fit, on))
          ∙ apart
          ∙ w.replaced s b fs.disk j (omega (arith, on)))
    | inr e ↦ rw e (w.replaced s b fs.disk j (omega (arith, on)))
  ]

  new_words : Fs D → ℕ → ℕ → ℕ → ℕ
  new_words fs c v = update (words_of fs c) (c % 128) (merge (words_of fs c (c % 128)) v)

  set_entry-writes :
      (fs : Fs D) (c v : ℕ)
      → IsTable sectors fs
      → InRange fs c
      → fat32_set_fat_entry blkdev_read blkdev_write c v fs
        ≡ (true, record fs { disk = two_writes fs (fs.fat_offset + c / 128) (new_words fs c v) })
  unfolding fat32_set_fat_entry write_fat two_writes new_words
  set_entry-writes fs c v t i =
      let (sector, word, low, inside) = place fs c t i in
      rw (inside, read_entry fs c t i)
        (rw (set_cached-none fs c v t, read_entry fs c t i, sector, word)
          (rw
            (w.written (fs.fat_offset + c / 128) (new_words fs c v) fs.disk
              (omega (arith, low, t.on_device)))
            refl))

  low_28-merge : (old v : ℕ) → low_28 (merge old v) ≡ low_28 v
  unfolding merge
  low_28-merge old v = omega arith

  -- The words of the new sector, in the place of the old one.
  new_words-at :
      (fs : Fs D) (c v j : ℕ)
      → low_28 (
          update
            (content fs.disk)
            (fs.fat_offset + c / 128)
            (new_words fs c v)
            (fs.fat_offset + j / 128)
            (j % 128))
        ≡ (if j == c then low_28 v else entry fs j)
  unfolding entry new_words words_of
  new_words-at fs c v j =
      let s = fs.fat_offset + c / 128 in
      let old = content fs.disk s in
      let new = update old (c % 128) (merge (old (c % 128)) v) in
      elim (Bool-cases (j == c)) [
        | inl e ↦
            let same : j ≡ c = (==_iff j c).0 e in
            rw (e, same)
              (ap (λ ws. low_28 (ws (c % 128))) (update_self (content fs.disk) s new)
                ∙ ap (λ x. low_28 x) (update_self old (c % 128) (merge (old (c % 128)) v))
                ∙ low_28-merge (old (c % 128)) v)
        | inr e ↦ rw e (elim (Bool-cases (s == fs.fat_offset + j / 128)) [
          | inl near ↦
              let here : s ≡ fs.fat_offset + j / 128 =
                (==_iff s (fs.fat_offset + j / 128)).0 near in
              let other : c % 128 ≢ j % 128 = ground (arith, e, here) in
              ap (λ x. low_28 (update (content fs.disk) s new x (j % 128))) (sym here)
              ∙ ap (λ ws. low_28 (ws (j % 128))) (update_self (content fs.disk) s new)
              ∙ ap (λ x. low_28 x)
                  (update_ne old (c % 128) (j % 128) (merge (old (c % 128)) v) other)
              ∙ ap (λ x. low_28 (content fs.disk x (j % 128))) here
          | inr far ↦
              let away : s ≢ fs.fat_offset + j / 128 = ground (arith, far) in
              ap (λ ws. low_28 (ws (j % 128)))
                (update_ne (content fs.disk) s (fs.fat_offset + j / 128) new away)
        ])
      ]

  -- One entry changes, in its lower 28 bits.
  pub entry-set :
      (fs : Fs D) (c v j : ℕ)
      → IsTable sectors fs
      → InRange fs c
      → InRange fs j
      → entry (fat32_set_fat_entry blkdev_read blkdev_write c v fs).1 j
        ≡ (if j == c then low_28 v else entry fs j)
  unfolding entry new_words words_of
  entry-set fs c v j t i k =
      let s = fs.fat_offset + c / 128 in
      let (_, _, low, _) = place fs j t k in
      let done = set_entry-writes fs c v t i in
      let at =
        content-two_writes fs s (new_words fs c v) (fs.fat_offset + j / 128) low (omega arith)
          (omega (arith, t.copies, t.fits, i.1)) (omega (arith, t.on_device, t.fits, i.1)) in
      rw (done, at) (new_words-at fs c v j)

  -- The table stays one, with the same clusters.
  pub set_entry-IsTable :
      (fs : Fs D) (c v : ℕ)
      → IsTable sectors fs
      → InRange fs c
      → let g = (fat32_set_fat_entry blkdev_read blkdev_write c v fs).1 in
        IsTable sectors g × (g.total_clusters ≡ fs.total_clusters)
  set_entry-IsTable fs c v t i = rw (set_entry-writes fs c v t i) (
    record {
      sector = t.sector;
      fits = t.fits;
      copies = t.copies;
      on_device = t.on_device;
      small = t.small;
      no_cache = t.no_cache;
    },
    refl,
  )

  -- The lock is no part of the table.
  pub entry-acquire : (fs : Fs D) (j : ℕ) → entry (acquire fs) j ≡ entry fs j
  unfolding entry acquire
  entry-acquire fs j = refl

  pub entry-release : (fs : Fs D) (j : ℕ) → entry (release fs) j ≡ entry fs j
  unfolding entry release
  entry-release fs j = refl

  pub out_of_range-inside :
      (fs : Fs D) (c : ℕ) → IsTable sectors fs → InRange fs c → out_of_range fs c ≡ false
  out_of_range-inside fs c t i = (place fs c t i).3

  pub out_of_range-outside :
      (fs : Fs D) (c : ℕ)
      → IsTable sectors fs
      → 2 ≤ c
      → fs.total_clusters + 2 ≤ c
      → out_of_range fs c ≡ true
  unfolding out_of_range
  out_of_range-outside fs c t low high = ground (arith, t.small, low, high)

pub acquire-IsTable :
    {D : Type 0} {sectors : ℕ} (fs : Fs D) → IsTable sectors fs → IsTable sectors (acquire fs)
unfolding acquire
acquire-IsTable fs t = record {
  sector = t.sector;
  fits = t.fits;
  copies = t.copies;
  on_device = t.on_device;
  small = t.small;
  no_cache = t.no_cache;
}

pub release-IsTable :
    {D : Type 0} {sectors : ℕ} (fs : Fs D) → IsTable sectors fs → IsTable sectors (release fs)
unfolding release
release-IsTable fs t = record {
  sector = t.sector;
  fits = t.fits;
  copies = t.copies;
  on_device = t.on_device;
  small = t.small;
  no_cache = t.no_cache;
}
