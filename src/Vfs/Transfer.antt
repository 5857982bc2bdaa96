-- ===== src/Vfs/Transfer.antt =====
-- Reading, writing and seeking through a descriptor: what reaches the driver, and where the offset
-- stands afterwards.
use thuban.Base.{
  ℕ, ◌+◌, ◌%◌, ◌^◌, ◌<◌, ◌≡◌, ◌≢◌, inl, inr, refl, ap, sym, ◌∙◌, bit_and, true, false, ◌||◌, some,
  ltb, ◌==◌, arith, Bool-cases, Option-cases,
}
use mathlib.Core.Path.{subst}
use thuban.Base.Int.{ℤ}
use thuban.Base.Store.{update, update_self}
use thuban.Vfs.{
  null, minus_one, any_flag, Vfs, Driver, vfs_get_file, advance, vfs_read, seek_append, vfs_write,
  seek_target, vfs_lseek,
}

-- Every offset is a number from 0 on.
abbrev pub OffsetsValid : {W : Type 0} → Vfs W → Type 0
OffsetsValid v = (p : ℕ) → (v.files p).offset < 2 ^ 63

module _ {W : Type 0} where
  OffsetsValid-update :
      (v : Vfs W) (file new_offset : ℕ)
      → OffsetsValid v
      → new_offset < 2 ^ 63
      → (p : ℕ)
      → (update v.files file (record (v.files file) { offset = new_offset }) p).offset < 2 ^ 63
  unfolding update
  OffsetsValid-update v file new_offset ok h p = elim (Bool-cases (file == p)) [
    | inl e ↦ rw e h
    | inr e ↦ rw e (ok p)
  ]

  -- If no file's offset is negative, none is after `vfs_lseek`, whatever descriptor, offset and
  -- `whence` it is given.
  pub vfs_lseek-OffsetsValid :
      (fd : ℤ) (offset whence : ℕ) (v : Vfs W)
      → OffsetsValid v
      → OffsetsValid (vfs_lseek fd offset whence v).1
  unfolding vfs_lseek
  vfs_lseek-OffsetsValid fd offset whence v ok =
      let file = vfs_get_file fd v in
      let f = v.files file in
      elim (Bool-cases (file == null)) [
        | inl e ↦ rw e ok
        | inr e ↦ rw e (elim (Option-cases (seek_target whence offset f (v.nodes f.node))) [
          | inl t ↦ rw t ok
          | inr (new_offset, t) ↦ elim (Bool-cases (ltb new_offset (2 ^ 63))) [
            | inr big ↦ rw (t, big) ok
            | inl small ↦ rw (t, small) (OffsetsValid-update v file new_offset ok (ground arith))
          ]
        ])
      ]

  abbrev moved : ℕ → ℕ → Vfs W → Vfs W
  moved file offset v = record v {
    files = update v.files file (record (v.files file) { offset = offset });
  }

  vfs_lseek_set :
      (fd : ℤ) (offset : ℕ) (v : Vfs W)
      → vfs_get_file fd v ≢ null
      → offset < 2 ^ 63
      → vfs_lseek fd offset 0 v ≡ (offset, moved (vfs_get_file fd v) offset v)
  unfolding vfs_lseek seek_target
  vfs_lseek_set fd offset v is_open small =
      let e : (vfs_get_file fd v == null) ≡ false = ground arith in
      let s : ltb offset (2 ^ 63) ≡ true = ground arith in rw (e, s) refl

  vfs_lseek_current :
      (fd : ℤ) (v : Vfs W)
      → vfs_get_file fd v ≢ null
      → (v.files (vfs_get_file fd v)).offset < 2 ^ 63
      → (vfs_lseek fd 0 1 v).0 ≡ (v.files (vfs_get_file fd v)).offset
  unfolding vfs_lseek seek_target
  vfs_lseek_current fd v is_open small =
      let e : (vfs_get_file fd v == null) ≡ false = ground arith in
      let same : ((v.files (vfs_get_file fd v)).offset + 0) % 2 ^ 64
          ≡ (v.files (vfs_get_file fd v)).offset =
        omega arith in
      let s : ltb (v.files (vfs_get_file fd v)).offset (2 ^ 63) ≡ true = ground arith in
      rw (e, same, s) refl

  -- Seeking to a position that is not negative and then asking for the position gives it back.
  pub vfs_lseek_tell :
      (fd : ℤ) (offset : ℕ) (v : Vfs W)
      → vfs_get_file fd v ≢ null
      → offset < 2 ^ 63
      → let (r, w) = vfs_lseek fd offset 0 v in (r ≡ offset) × ((vfs_lseek fd 0 1 w).0 ≡ offset)
  unfolding vfs_get_file
  vfs_lseek_tell fd offset v is_open small =
      let file = vfs_get_file fd v in
      let w = moved file offset v in
      let at : (w.files (vfs_get_file fd w)).offset ≡ offset =
        ap (λ f. f.offset) (update_self v.files file _) in
      rw (vfs_lseek_set fd offset v is_open small)
        (refl, vfs_lseek_current fd w is_open (rw at small) ∙ at)

  -- Reading moves a file's offset and nothing else.
  advanced :
      (file n : ℕ) (v : Vfs W)
      → n < 2 ^ 63
      → (v.files file).offset + n < 2 ^ 64
      → ((advance file n v).files file).offset ≡ (v.files file).offset + n
  unfolding advance
  advanced file n v small fits = elim (Bool-cases (n == 0)) [
    | inl e ↦ rw e (ground arith)
    | inr e ↦
        let s : ltb n (2 ^ 63) ≡ true = ground arith in
        rw (e, s) (ap (λ f. f.offset) (update_self v.files file _) ∙ omega arith)
  ]

  -- On an open file whose driver reads, `vfs_read` returns what the driver returns for the file's
  -- offset. If the driver leaves the files alone, the result is not negative and the sum does not
  -- wrap, the offset moves on by the bytes that were read.
  pub vfs_read_sequential :
      (driver : Driver W) (fd : ℤ) (buf count n : ℕ) (v u : Vfs W)
      (read : ℕ → ℕ → ℕ → ℕ → Vfs W → ℕ × Vfs W)
      → vfs_get_file fd v ≢ null
      → buf ≢ null
      → driver.read (v.nodes (v.files (vfs_get_file fd v)).node).fops ≡ some read
      → read (vfs_get_file fd v) buf count (v.files (vfs_get_file fd v)).offset v ≡ (n, u)
      → u.files ≡ v.files
      → n < 2 ^ 63
      → (v.files (vfs_get_file fd v)).offset + n < 2 ^ 64
      → let (r, w) = vfs_read driver fd buf count v in
        (r ≡ n) × ((w.files (vfs_get_file fd v)).offset ≡ (v.files (vfs_get_file fd v)).offset + n)
  unfolding vfs_read
  vfs_read_sequential driver fd buf count n v u read is_open there has done same small fits =
      let e : (vfs_get_file fd v == null) ≡ false = ground arith in
      let b : (buf == null) ≡ false = ground arith in
      let fits' : (u.files (vfs_get_file fd v)).offset + n < 2 ^ 64 =
        subst (λ f. (f (vfs_get_file fd v)).offset + n < 2 ^ 64) (sym same) fits in
      rw (e, b, has, done)
        (
          refl,
          advanced (vfs_get_file fd v) n u small fits'
              ∙ ap (λ f. (f (vfs_get_file fd v)).offset + n) same,
        )

  -- A file that was opened with O_RDONLY is never written: `vfs_write` returns -1 without a call of
  -- the driver, and nothing changes.
  pub vfs_write_read_only :
      (driver : Driver W) (fd : ℤ) (buf count : ℕ) (v : Vfs W)
      → bit_and (v.files (vfs_get_file fd v)).flags 3 ≡ 0
      → vfs_write driver fd buf count v ≡ (minus_one, v)
  unfolding vfs_write
  vfs_write_read_only driver fd buf count v h =
      elim (Bool-cases (vfs_get_file fd v == null || buf == null)) [
        | inl e ↦ rw e refl
        | inr e ↦
            rw e
              (elim (Option-cases
                (driver.write (v.nodes (v.files (vfs_get_file fd v)).node).fops)) [
                  | inl missing ↦ rw missing refl
                  | inr (f, has) ↦ rw (has, h) refl
                ])
      ]

  offset-seek_append :
      (file : ℕ) (v : Vfs W)
      → any_flag (v.files file).flags 0x400 ≡ true
      → ((seek_append file v).files file).offset ≡ (v.nodes (v.files file).node).size
  unfolding seek_append
  offset-seek_append file v h = rw h (ap (λ f. f.offset) (update_self v.files file _))

  -- On a file opened for writing with O_APPEND, `vfs_write` calls the driver with the size of the
  -- node as the offset, wherever the file stood, and returns the driver's result.
  pub vfs_write_append :
      (driver : Driver W) (fd : ℤ) (buf count n : ℕ) (v u : Vfs W)
      (write : ℕ → ℕ → ℕ → ℕ → Vfs W → ℕ × Vfs W)
      → vfs_get_file fd v ≢ null
      → buf ≢ null
      → driver.write (v.nodes (v.files (vfs_get_file fd v)).node).fops ≡ some write
      → bit_and (v.files (vfs_get_file fd v)).flags 3 ≢ 0
      → any_flag (v.files (vfs_get_file fd v)).flags 0x400 ≡ true
      → write
          (vfs_get_file fd v)
          buf
          count
          (v.nodes (v.files (vfs_get_file fd v)).node).size
          (seek_append (vfs_get_file fd v) v)
        ≡ (n, u)
      → vfs_write driver fd buf count v ≡ (n, advance (vfs_get_file fd v) n u)
  unfolding vfs_write
  vfs_write_append driver fd buf count n v u write is_open there has writable app done =
      let e : (vfs_get_file fd v == null) ≡ false = ground arith in
      let b : (buf == null) ≡ false = ground arith in
      let c : (bit_and (v.files (vfs_get_file fd v)).flags 3 == 0) ≡ false = ground arith in
      rw (e, b, has, c, offset-seek_append (vfs_get_file fd v) v app, done) refl
