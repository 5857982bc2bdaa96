-- ===== src/Blkdev/Request.antt =====
-- Which requests reach a driver, and with which sectors.
use thuban.Base.{
  ℕ, ◌+◌, ◌-◌, ◌^◌, ◌<◌, ◌≤◌, ◌≡◌, ◌≢◌, inl, inr, refl, min, true, false, ◌||◌, Option, none, some,
  ltb, ◌==◌, arith, Bool-cases, ◌∙◌,
}
use mathlib.Core.Path.{subst, sym}
use mathlib.Core.Option.{some-injective}
use thuban.Base.Int.{ℤ}
use thuban.Blkdev.{
  null, error, flag_present, flag_readonly, has_flag, Ops, Device, Blkdev, clamp_count, call,
  dispatch, blkdev_read, blkdev_write,
}

-- The device exists and is present, the buffer is there, and the request begins inside the device.
abbrev pub Accepted : {W : Type 0} → (dev sector count buffer : ℕ) → Device W → Type 0
Accepted dev sector count buffer d =
    (dev ≢ null)
    × (buffer ≢ 0)
    × (0 < count)
    × (has_flag d.flags flag_present ≡ true)
    × (sector < d.total_sectors)

-- Unless the sum of sector and count leaves 64 bits, the clamped request ends inside the device.
pub clamp_count-min :
    (total sector count : ℕ)
    → sector < total
    → count < 2 ^ 32
    → total + 2 ^ 32 ≤ 2 ^ 64
    → clamp_count total sector count ≡ min count (total - sector)
unfolding clamp_count
clamp_count-min total sector count h c t = ground arith

-- For a first sector inside a device, if the sum of sector and count reaches 2^64, it wraps and the
-- count is not cut at the device's end.
pub clamp_count_wraps :
    (total sector count : ℕ)
    → sector < total
    → total < 2 ^ 64
    → 2 ^ 64 ≤ sector + count
    → count < 2 ^ 32
    → clamp_count total sector count ≡ count
unfolding clamp_count
clamp_count_wraps total sector count h t w c = ground arith

module _ {W : Type 0} where
  -- A rejected request changes nothing; one that is served is one call of the driver's operation
  -- for sectors inside the device, as many as were asked for and exist.
  pub data Served (op : Ops W → Option (ℕ → ℕ → ℕ → W → ℤ × W)) (allowed : Type 0)
      (dev sector count buffer : ℕ) (d : Device W) (w : W) : ℤ × W → Type 0 where
    rejected :
        {out : ℤ × W}
        → out ≡ (error, w)
        → ¬ (
            Accepted dev sector count buffer d
            × allowed
            × (o : Ops W) × (d.ops ≡ some o)
            × (op o ≢ none))
        → Served op allowed dev sector count buffer d w out
    called :
        {out : ℤ × W} (o : Ops W) (f : ℕ → ℕ → ℕ → W → ℤ × W) (n : ℕ)
        → Accepted dev sector count buffer d
        → allowed
        → d.ops ≡ some o
        → op o ≡ some f
        → n ≡ min count (d.total_sectors - sector)
        → sector + n ≤ d.total_sectors
        → out ≡ f sector n buffer w
        → Served op allowed dev sector count buffer d w out

  dispatch-Served :
      (op : Ops W → Option (ℕ → ℕ → ℕ → W → ℤ × W)) (allowed : Type 0) (dev sector count buffer : ℕ)
      (d : Device W) (w : W)
      → Accepted dev sector count buffer d
      → allowed
      → (n : ℕ) → n ≡ min count (d.total_sectors - sector)
      → (ops : Option (Ops W)) → d.ops ≡ ops
      → Served op allowed dev sector count buffer d w (dispatch op ops sector n buffer w)
  unfolding dispatch
  dispatch-Served op allowed dev sector count buffer d w acc ok n e none h =
      rejected refl (λ (x, y, o, q, r). cc)
  dispatch-Served op allowed dev sector count buffer d w acc ok n e (some o) h =
      call-Served (op o) refl
    where
      call-Served :
          (f : Option (ℕ → ℕ → ℕ → W → ℤ × W))
          → op o ≡ f
          → Served op allowed dev sector count buffer d w (call f sector n buffer w)
      call-Served none q =
          rejected refl
            (λ (x, y, o', h', r). r (subst (λ z. op z ≡ none) (some-injective o o' (sym h ∙ h')) q))
      call-Served (some f) q = called o f n acc ok h q e (omega (arith, acc.4)) refl

  -- For a 32-bit count and a device with at most 2^64 - 2^32 sectors, `blkdev_read` calls the
  -- driver exactly for an accepted request (device, buffer and count not 0, device present, first
  -- sector inside) of a device that can read, with the count cut at the device's end; otherwise it
  -- returns -1 and the driver is not called.
  pub blkdev_read-Served :
      (dev sector count buffer : ℕ) (b : Blkdev W) (w : W)
      → count < 2 ^ 32
      → (b.devices dev).total_sectors + 2 ^ 32 ≤ 2 ^ 64
      → Served
          (λ o. o.read)
          Unit
          dev
          sector
          count
          buffer
          (b.devices dev)
          w
          (blkdev_read dev sector count buffer b w)
  unfolding blkdev_read
  blkdev_read-Served dev sector count buffer b w c t =
      let d = b.devices dev in
      elim (Bool-cases (dev == null || buffer == 0 || count == 0)) [
        | inl e ↦ rw e (rejected refl (λ a. ground (arith, a.0.0, a.0.1, a.0.2)))
        | inr n₁ ↦ rw n₁ (elim (Bool-cases (has_flag d.flags flag_present)) [
          | inr e ↦ rw e (rejected refl (λ a. ground (arith, a.0.3)))
          | inl present ↦ rw present (elim (Bool-cases (ltb sector d.total_sectors)) [
            | inr e ↦ rw e (rejected refl (λ a. ground (arith, a.0.4)))
            | inl inside ↦ rw inside (
                dispatch-Served (λ o. o.read) Unit dev sector count buffer d w
                  (ground arith, ground arith, ground arith, present, ground arith) tt
                  (clamp_count d.total_sectors sector count)
                  (clamp_count-min d.total_sectors sector count (ground arith) c t) d.ops refl)
          ])
        ])
      ]

  -- For a 32-bit count and a device with at most 2^64 - 2^32 sectors, `blkdev_write` calls the
  -- driver exactly for an accepted request of a device that can write and is not marked read-only,
  -- with the count cut at the device's end; otherwise it returns -1 and the driver is not called.
  pub blkdev_write-Served :
      (dev sector count buffer : ℕ) (b : Blkdev W) (w : W)
      → count < 2 ^ 32
      → (b.devices dev).total_sectors + 2 ^ 32 ≤ 2 ^ 64
      → Served
          (λ o. o.write)
          (has_flag (b.devices dev).flags flag_readonly ≡ false)
          dev
          sector
          count
          buffer
          (b.devices dev)
          w
          (blkdev_write dev sector count buffer b w)
  unfolding blkdev_write
  blkdev_write-Served dev sector count buffer b w c t =
      let d = b.devices dev in
      elim (Bool-cases (dev == null || buffer == 0 || count == 0)) [
        | inl e ↦ rw e (rejected refl (λ a. ground (arith, a.0.0, a.0.1, a.0.2)))
        | inr n₁ ↦ (elim (Bool-cases (has_flag d.flags flag_present)) [
          | inr e ↦ rw (n₁, e) (rejected refl (λ a. ground (arith, a.0.3)))
          | inl present ↦ (elim (Bool-cases (has_flag d.flags flag_readonly)) [
            | inl e ↦ rw (n₁, present, e) (rejected refl (λ a. ground (arith, a.1)))
            | inr wr ↦ (elim (Bool-cases (ltb sector d.total_sectors)) [
              | inr e ↦ rw (n₁, present, wr, e) (rejected refl (λ a. ground (arith, a.0.4)))
              | inl inside ↦
                  let pass : blkdev_write dev sector count buffer b w
                      ≡ dispatch (λ o. o.write) d.ops sector
                          (clamp_count d.total_sectors sector count) buffer w =
                    rw (n₁, present, wr, inside) refl in
                  subst
                    (Served (λ o. o.write) (has_flag d.flags flag_readonly ≡ false) dev sector count
                      buffer d w)
                    (sym pass)
                    (dispatch-Served (λ o. o.write) (has_flag d.flags flag_readonly ≡ false) dev
                      sector count buffer d w
                      (ground arith, ground arith, ground arith, present, ground arith) wr
                      (clamp_count d.total_sectors sector count)
                      (clamp_count-min d.total_sectors sector count (ground arith) c t) d.ops refl)
            ])
          ])
        ])
      ]
