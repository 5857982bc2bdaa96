-- ===== src/Fat32.antt =====
-- fs/fat32/fat32.c: the table of clusters, `fat32_cluster_to_sector` to `fat32_free_chain`. The
-- directories and the files are not modelled.
-- A sector is its 128 words of 32 bits; the table's first copy begins at the sector `fat_offset`.
-- `blkdev_read` and `blkdev_write`, for one sector of the file system's device, are parameters on a
-- state `D`: the words that were read or `none`, and whether the words were written.
pub mod Table
pub mod Clusters
mod Tests
use thuban.Base.{
  ℕ, zero, suc, ◌+◌, ◌-◌, ◌*◌, ◌/◌, ◌%◌, ◌^◌, Bool, true, false, not, ◌&&◌, ◌||◌, Option, none,
  some, ltb, leb, ◌==◌, if◌then◌else◌,
}
use thuban.Base.Store.{update}
use thuban.Lock.{Guard, spin_lock, spin_unlock}

-- `FAT32_EOC_MIN` and `FAT32_EOC_MAX`.
abbrev pub eoc_min : ℕ
eoc_min = 0x0FFF_FFF8

abbrev pub eoc_max : ℕ
eoc_max = 0x0FFF_FFFF

-- `fat32_fs_t` with the fields that are used, the lock, and the state of the device.
pub record Fs (D : Type 0) : Type 0 where
  pub bytes_per_sector : ℕ
  pub sectors_per_cluster : ℕ
  pub num_fats : ℕ
  pub fat_size_32 : ℕ
  pub fat_offset : ℕ
  pub data_offset : ℕ
  pub total_clusters : ℕ
  pub fat_cache : Option (ℕ → ℕ)
  pub fat_cache_size : ℕ
  pub fat_dirty : Bool
  pub guard : Guard
  pub disk : D

-- `& 0x0FFFFFFF`, and the word that keeps the upper four bits of `old`.
abbrev pub low_28 : ℕ → ℕ
low_28 w = w % 2 ^ 28

pub merge : (old value : ℕ) → ℕ
merge old value = old / 2 ^ 28 * 2 ^ 28 % 2 ^ 32 + low_28 value

module _ {D : Type 0} where
  pub fat32_cluster_to_sector : Fs D → ℕ → ℕ
  fat32_cluster_to_sector fs cluster =
      if ltb cluster 2
      then 0
      else (fs.data_offset + (cluster - 2) * fs.sectors_per_cluster) % 2 ^ 32

  -- `cluster < 2 || cluster >= fs->total_clusters + 2`
  pub out_of_range : Fs D → ℕ → Bool
  out_of_range fs cluster = ltb cluster 2 || leb ((fs.total_clusters + 2) % 2 ^ 32) cluster

  -- The sector and the word of a cluster's entry.
  pub fat_sector : Fs D → ℕ → ℕ
  fat_sector fs cluster = (fs.fat_offset + cluster * 4 % 2 ^ 32 / fs.bytes_per_sector) % 2 ^ 32

  pub fat_word : Fs D → ℕ → ℕ
  fat_word fs cluster = cluster * 4 % 2 ^ 32 % fs.bytes_per_sector / 4

  -- The entry in the cache, if it has one.
  pub cached : Fs D → ℕ → Option ℕ
  cached fs cluster = elim fs.fat_cache [
    | none ↦ none
    | some c ↦ if ltb cluster fs.fat_cache_size then some (c cluster) else none
  ]

  pub set_cached : ℕ → ℕ → Fs D → Fs D
  set_cached cluster value fs = elim fs.fat_cache [
    | none ↦ fs
    | some c ↦
        if ltb cluster fs.fat_cache_size
        then record fs { fat_cache = some (update c cluster (low_28 value)); fat_dirty = true }
        else fs
  ]

  pub acquire : Fs D → Fs D
  acquire fs = record fs { guard = spin_lock fs.guard }

  pub release : Fs D → Fs D
  release fs = record fs { guard = spin_unlock fs.guard }

module _ {D : Type 0} (blkdev_read : ℕ → D → Option (ℕ → ℕ) × D)
    (blkdev_write : ℕ → (ℕ → ℕ) → D → Bool × D) where
  pub fat32_get_next_cluster : ℕ → Fs D → ℕ × Fs D
  fat32_get_next_cluster cluster fs =
      let (words, disk) = blkdev_read (fat_sector fs cluster) fs.disk in
      if out_of_range fs cluster then (eoc_max, fs) else elim (cached fs cluster) [
        | some next ↦ (low_28 next, fs)
        | none ↦ elim words [
          | none ↦ (eoc_max, record fs { disk = disk })
          | some ws ↦ (low_28 (ws (fat_word fs cluster)), record fs { disk = disk })
        ]
      ]

  -- The write of the changed sector, and of its copy.
  pub write_fat : (sector : ℕ) → (ℕ → ℕ) → Fs D → Bool × Fs D
  write_fat sector words fs =
      let (written, disk) = blkdev_write sector words fs.disk in
      let copy = (blkdev_write ((sector + fs.fat_size_32) % 2 ^ 32) words disk).1 in
      if not written
      then (false, record fs { disk = disk })
      else (true, record fs { disk = if ltb 1 fs.num_fats then copy else disk })

  -- `true` for the result 0, `false` for -1.
  pub fat32_set_fat_entry : ℕ → ℕ → Fs D → Bool × Fs D
  fat32_set_fat_entry cluster value fs =
      let g = set_cached cluster value fs in
      let sector = fat_sector fs cluster in
      let word = fat_word fs cluster in
      let (words, disk) = blkdev_read sector fs.disk in
      let h : Fs D = record g { disk = disk } in
      if out_of_range fs cluster then (false, fs) else elim words [
        | none ↦ (false, h)
        | some ws ↦ write_fat sector (update ws word (merge (ws word) value)) h
      ]

  -- The loop over `cluster`, with the rounds left.
  pub alloc_loop : ℕ → ℕ → Fs D → ℕ × Fs D
  alloc_loop zero cluster fs = (0, release fs)
  alloc_loop (suc n) cluster fs =
      let (entry, g) = fat32_get_next_cluster cluster fs in
      let rest = alloc_loop n (cluster + 1) g in
      if entry == 0 then (cluster, release (fat32_set_fat_entry cluster eoc_max g).1) else rest

  pub fat32_alloc_cluster : Fs D → ℕ × Fs D
  fat32_alloc_cluster fs = alloc_loop ((fs.total_clusters + 2) % 2 ^ 32 - 2) 2 (acquire fs)

  pub fat32_free_cluster : ℕ → Fs D → Fs D
  fat32_free_cluster cluster fs =
      if out_of_range fs cluster then fs else release (fat32_set_fat_entry cluster 0 (acquire fs)).1

  -- The loop stops at a cluster that is not one.
  pub fat32_free_chain : (fuel : ℕ) → ℕ → Fs D → Option (Fs D)
  fat32_free_chain zero cluster fs = none
  fat32_free_chain (suc f) cluster fs =
      let (next, g) = fat32_get_next_cluster cluster fs in
      let rest = fat32_free_chain f next (fat32_free_cluster cluster g) in
      if leb 2 cluster && ltb cluster eoc_min then rest else some fs
