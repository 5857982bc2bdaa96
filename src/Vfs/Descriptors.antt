-- ===== src/Vfs/Descriptors.antt =====
-- The table of open files: which slot a file gets, and what closing it gives back.
use thuban.Base.{
  ℕ, zero, suc, ◌+◌, ◌-◌, ◌%◌, ◌^◌, ◌<◌, ◌≤◌, ◌≡◌, ◌≢◌, ◌⊎◌, inl, inr, refl, ap, ◌∙◌, true, false,
  ◌∷◌, Option, none, some, ltb, ◌==◌, if◌then◌else◌, arith, Bool-cases,
}
use thuban.Base.Int.{ℤ, pos, negsuc}
use thuban.Base.Store.{update_self, update_ne}
use thuban.Vfs.{
  null, max_open_files, Vfs, acquire, find_slot, install, vfs_alloc_fd, drop, in_table, clear_slot,
  vfs_free_fd, vfs_get_file,
}

-- The slot `k` is the first empty one from `i` on.
abbrev pub FirstEmpty : (ℕ → ℕ) → ℕ → ℕ → ℕ → Type 0
FirstEmpty table i n k =
    (i ≤ k) × (k < i + n) × (table k ≡ null) × ((j : ℕ) → i ≤ j → j < k → table j ≢ null)

find_slot-some :
    (n i : ℕ) (table : ℕ → ℕ) (k : ℕ) → find_slot n i table ≡ some k → FirstEmpty table i n k
unfolding find_slot
find_slot-some zero i table k h = cc
find_slot-some (suc n) i table k h = elim (Bool-cases (table i == null)) [
  | inl e ↦
      let same : i ≡ k = ground (arith, e, h) in
      (ground arith, ground arith, ground (arith, ap table same), λ j a b. ground arith)
  | inr ne ↦
      let (above, below, empty, taken) = find_slot-some n (i + 1) table k (rw ne at h) in
      (
        ground arith,
        ground arith,
        empty,
        λ j a b. elim (Bool-cases (i == j)) [
          | inl e ↦ let same : i ≡ j = ground arith in ground (arith, ap table same)
          | inr far ↦ taken j (ground arith) b
        ],
      )
]

find_slot-none :
    (n i : ℕ) (table : ℕ → ℕ)
    → find_slot n i table ≡ none
    → (j : ℕ) → i ≤ j
    → j < i + n
    → table j ≢ null
unfolding find_slot
find_slot-none zero i table h j a b = omega arith
find_slot-none (suc n) i table h j a b = elim (Bool-cases (table i == null)) [
  | inl e ↦ let clash : some i ≡ none = rw e at h in cc
  | inr ne ↦ elim (Bool-cases (i == j)) [
    | inl e ↦ let same : i ≡ j = ground arith in ground (arith, ap table same)
    | inr far ↦ find_slot-none n (i + 1) table (rw ne at h) j (ground arith) (ground arith)
  ]
]

-- What `vfs_alloc_fd` does: the first empty slot now leads to the file, which is counted once more,
-- and the other slots are as they were; or all 256 slots are taken, and nothing changed.
abbrev pub Opened : {W : Type 0} → ℕ → Vfs W → ℤ × Vfs W → Type 0
Opened file v (r, w) =
    ((i : ℕ) × (r ≡ pos i)
      × FirstEmpty v.fd_table 0 max_open_files i
      × (vfs_get_file r w ≡ file)
      × ((j : ℕ) → i ≢ j → w.fd_table j ≡ v.fd_table j)
      × ((w.files file).refcount ≡ ((v.files file).refcount + 1) % 2 ^ 32))
    ⊎ ((r ≡ negsuc 0)
        × ((j : ℕ) → j < max_open_files → v.fd_table j ≢ null)
        × (w.fd_table ≡ v.fd_table)
        × (w.files ≡ v.files))

module _ {W : Type 0} where
  install-Opened :
      (file : ℕ) (v : Vfs W) (o : Option ℕ)
      → ((k : ℕ) → o ≡ some k → FirstEmpty v.fd_table 0 max_open_files k)
      → (o ≡ none → (j : ℕ) → 0 ≤ j → j < 0 + max_open_files → v.fd_table j ≢ null)
      → Opened file v (install file o (acquire v))
  unfolding install acquire vfs_get_file in_table
  install-Opened file v none f g = inr (refl, λ j b. g refl j (omega arith) b, refl, refl)
  install-Opened file v (some i) f g =
      let first = f i refl in
      let small : ltb i max_open_files ≡ true = ground (arith, first.1) in
      inl (
        i,
        refl,
        first,
        rw (vfs_get_file, small) (update_self v.fd_table i file),
        λ j ne. update_ne v.fd_table i j file ne,
        ap (λ f. f.refcount) (update_self v.files file _),
      )

  -- `vfs_alloc_fd` makes the first empty one of the 256 slots lead to the file, counts the file
  -- once more and leaves the other slots; or all slots are taken, it returns -1, and neither the
  -- table nor a file changes.
  pub vfs_alloc_fd-Opened : (file : ℕ) (v : Vfs W) → Opened file v (vfs_alloc_fd file v)
  unfolding vfs_alloc_fd acquire
  vfs_alloc_fd-Opened file v =
      install-Opened file v (find_slot max_open_files 0 v.fd_table)
        (λ k. find_slot-some max_open_files 0 v.fd_table k)
        (find_slot-none max_open_files 0 v.fd_table)

  -- `vfs_free_fd` on a descriptor in use empties its slot and leaves the others; the file is
  -- counted once less, and it is freed exactly when its count was 1.
  pub vfs_free_fd_lem :
      (i : ℕ) (v : Vfs W)
      → i < max_open_files
      → v.fd_table i ≢ null
      → let file = v.fd_table i in
        let w = vfs_free_fd (pos i) v in
        (vfs_get_file (pos i) w ≡ null)
        × ((j : ℕ) → i ≢ j → w.fd_table j ≡ v.fd_table j)
        × ((w.files file).refcount ≡ ((v.files file).refcount + (2 ^ 32 - 1)) % 2 ^ 32)
        × (w.freed ≡ (if (v.files file).refcount % 2 ^ 32 == 1 then file ∷ v.freed else v.freed))
  unfolding vfs_free_fd vfs_get_file in_table clear_slot drop
  vfs_free_fd_lem i v small taken =
      let s : ltb i max_open_files ≡ true = ground arith in
      let t : (v.fd_table i == null) ≡ false = ground arith in
      rw (vfs_free_fd, s, t)
        (
          rw (vfs_get_file, s) (update_self v.fd_table i null),
          λ j ne. update_ne v.fd_table i j null ne,
          ap (λ f. f.refcount) (update_self v.files (v.fd_table i) _)
              ∙ ap (λ k. k % 2 ^ 32) (omega arith),
          ground arith,
        )
