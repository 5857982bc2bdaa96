-- ===== src/Fat32/Tests.antt =====
-- A table of four clusters, two of them in a circle, on a device of 64 sectors, and theorems
-- applied to it.
use thuban.Base.{
  ℕ, ltb, ◌<◌, ◌≡◌, refl, arith, Bool, true, false, Option, none, some, ◌==◌, if◌then◌else◌, ◌^◌,
}
use thuban.Base.Store.{update}
use thuban.Fat32.{Fs, fat32_free_chain, fat32_alloc_cluster}
use thuban.Fat32.Table.{IsTable, Works}
use thuban.Fat32.Clusters.Chain.{ChainFreed, fat32_free_chain-ChainFreed}
use thuban.Fat32.Clusters.Alloc.{Taken, fat32_alloc_cluster-Taken}

abbrev Disk : Type 0
Disk = ℕ → ℕ → ℕ

abbrev reads : ℕ → Disk → Option (ℕ → ℕ) × Disk
reads s d = if ltb s 64 then (some (d s), d) else (none, d)

abbrev writes : ℕ → (ℕ → ℕ) → Disk → Bool × Disk
writes s b d = if ltb s 64 then (true, update d s b) else (false, d)

abbrev content : Disk → ℕ → ℕ → ℕ
content d = d

inside : (s : ℕ) → s < 64 → ltb s 64 ≡ true
inside s l = ground (arith, l)

works : Works reads writes content 64
works = record {
  read = λ s d l. rw (inside s l) refl;
  written = λ s b d l. rw (inside s l) refl;
  replaced = λ s b d j l. rw (inside s l) refl;
}

abbrev circle : Fs Disk
circle = record {
  bytes_per_sector = 512;
  sectors_per_cluster = 8;
  num_fats = 2;
  fat_size_32 = 1;
  fat_offset = 32;
  data_offset = 34;
  total_clusters = 4;
  fat_cache = none;
  fat_cache_size = 0;
  fat_dirty = false;
  guard = record { lock = record { flags = 0; locked = 0; name = 0 }; rflags = 2 ^ 9 };
  disk = λ s j. if s == 32 then (if j == 2 then 3 else if j == 3 then 2 else 0) else 0;
}

circle-IsTable : IsTable 64 circle
circle-IsTable = record {
  sector = refl;
  fits = omega arith;
  copies = omega arith;
  on_device = omega arith;
  small = omega arith;
  no_cache = refl;
}

fat32_free_chain-ChainFreed_example :
    (g : Fs Disk) × (fat32_free_chain reads writes 7 2 circle ≡ some g)
    × ChainFreed reads writes content works 2 circle g
fat32_free_chain-ChainFreed_example =
    fat32_free_chain-ChainFreed reads writes content works 7 2 circle circle-IsTable (omega arith)

fat32_alloc_cluster-Taken_example :
    Taken reads writes content works 2 circle (fat32_alloc_cluster reads writes circle)
fat32_alloc_cluster-Taken_example =
    fat32_alloc_cluster-Taken reads writes content works circle circle-IsTable
