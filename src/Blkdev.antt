-- ===== src/Blkdev.antt =====
-- kernel/disk/blkdev.c and include/thuban/blkdev.h: the registered block devices, and the checks
-- before a request reaches a driver.
-- A pointer to a device is an address, NULL is 0, and `devices` is what stands there. The list that
-- `blkdev_head` begins, linked by the `next` fields, is the list of its addresses. A driver is the
-- parameter `W`, the state that its operations change; a missing operation is `none`. `ioctl` is
-- never called; the messages that are printed are left out, and so is `blkdev_list`, which prints.
pub mod Registry
pub mod Request
mod Tests
use thuban.Base.{
  ℕ, ◌+◌, ◌-◌, ◌*◌, ◌/◌, ◌%◌, ◌^◌, bit_and, bit_or, Bool, true, false, not, ◌||◌, List, [], ◌∷◌,
  Option, none, some, ltb, ◌==◌, if◌then◌else◌,
}
use thuban.Base.Bits.{complement_mask}
use thuban.Base.Store.{update}
use thuban.Base.Int.{ℤ, pos, negsuc}
use thuban.CString.Compare.{same_text}
use thuban.Lock.{Guard, spin_lock, spin_unlock, spin_lock_init}

abbrev pub null : ℕ
null = 0

abbrev pub default_sector_size : ℕ
default_sector_size = 512

-- The return value -1.
abbrev pub error : ℤ
error = negsuc 0

-- `BLKDEV_FLAG_READONLY` and `BLKDEV_FLAG_PRESENT`.
abbrev pub flag_readonly : ℕ
flag_readonly = 2 ^ 1

abbrev pub flag_present : ℕ
flag_present = 2 ^ 2

abbrev pub has_flag : ℕ → ℕ → Bool
has_flag flags f = not (bit_and flags f == 0)

-- `*curr = dev->next` at the first link that holds `dev`.
pub unlink : ℕ → List ℕ → List ℕ
unlink dev [] = []
unlink dev (p ∷ ps) = if p == dev then ps else p ∷ unlink dev ps

pub listed : ℕ → List ℕ → Bool
listed dev [] = false
listed dev (p ∷ ps) = p == dev || listed dev ps

-- `if (sector + count > total_sectors) count = total_sectors - sector;` on 64 and 32 bits.
pub clamp_count : (total sector count : ℕ) → ℕ
clamp_count total sector count =
    if ltb total ((sector + count) % 2 ^ 64)
    then ((total + 2 ^ 64 - sector) % 2 ^ 64) % 2 ^ 32
    else count

module _ (W : Type 0) where
  -- `struct block_device_ops`: sector, count and buffer of a request.
  pub record Ops : Type 0 where
    pub read : Option (ℕ → ℕ → ℕ → W → ℤ × W)
    pub write : Option (ℕ → ℕ → ℕ → W → ℤ × W)
    pub flush : Option (W → ℤ × W)

  -- `struct block_device`, less the driver's own data and the link.
  pub record Device : Type 0 where
    pub name : List ℕ
    pub major : ℕ
    pub minor : ℕ
    pub total_sectors : ℕ
    pub sector_size : ℕ
    pub kind : ℕ
    pub flags : ℕ
    pub ops : Option Ops

  -- The static variables of the file, and the devices.
  pub record Blkdev : Type 0 where
    pub devices : ℕ → Device
    pub list : List ℕ
    pub next_major : ℕ
    pub guard : Guard

module _ {W : Type 0} where
  pub blkdev_init : ℕ → Blkdev W → Blkdev W
  blkdev_init lock_name b = record b {
    list = [];
    next_major = 1;
    guard = spin_lock_init lock_name b.guard;
  }

  abbrev pub can_read : Device W → Bool
  can_read d = elim d.ops [ none ↦ false | some o ↦ elim o.read [ none ↦ false | some r ↦ true ] ]

  -- The loop of `blkdev_register` and of `blkdev_find`: the first device of that name, or NULL.
  pub find_name : (ℕ → Device W) → List ℕ → List ℕ → ℕ
  find_name devices name [] = null
  find_name devices name (p ∷ ps) =
      if same_text (devices p).name name then p else find_name devices name ps

  -- What `blkdev_register` writes into the new device.
  pub prepare : ℕ → Device W → Device W
  prepare next_major d = record d {
    major = if d.major == 0 then next_major else d.major;
    sector_size = if d.sector_size == 0 then default_sector_size else d.sector_size;
    flags = bit_or d.flags flag_present;
  }

  pub acquire : Blkdev W → Blkdev W
  acquire b = record b { guard = spin_lock b.guard }

  pub release : Blkdev W → Blkdev W
  release b = record b { guard = spin_unlock b.guard }

  -- A device in the list has an address other than NULL.
  pub blkdev_register : ℕ → Blkdev W → ℤ × Blkdev W
  unfolding find_name acquire release
  blkdev_register dev b =
      if dev == null
      then (error, b)
      else if not (can_read (b.devices dev))
      then (error, b)
      else (let c = acquire b in
          let d = c.devices dev in
          if not (find_name c.devices d.name c.list == null) then (error, release c) else (
            pos 0,
            release (record c {
              devices = update c.devices dev (prepare c.next_major d);
              list = dev ∷ c.list;
              next_major = if d.major == 0 then (c.next_major + 1) % 2 ^ 32 else c.next_major;
            }),
          ))

  pub blkdev_unregister : ℕ → Blkdev W → Blkdev W
  unfolding acquire release
  blkdev_unregister dev b =
      if dev == null
      then b
      else (let c = acquire b in
          let d = c.devices dev in
          if listed dev c.list
          then release (record c {
            devices =
                update c.devices dev (record d { flags = bit_and d.flags (complement_mask 32 2) });
            list = unlink dev c.list;
          })
          else release c)

  -- `none` is the pointer NULL for the name.
  pub blkdev_find : Option (List ℕ) → Blkdev W → ℕ × Blkdev W
  unfolding find_name acquire release
  blkdev_find none b = (null, b)
  blkdev_find (some name) b = let c = acquire b in (find_name c.devices name c.list, release c)

  -- `if (!dev->ops || !dev->ops->read) return -1; return dev->ops->read(...);`, or `write`.
  pub call : Option (ℕ → ℕ → ℕ → W → ℤ × W) → (sector count buffer : ℕ) → W → ℤ × W
  call none sector count buffer w = (error, w)
  call (some f) sector count buffer w = f sector count buffer w

  pub dispatch :
      (Ops W → Option (ℕ → ℕ → ℕ → W → ℤ × W))
      → Option (Ops W)
      → (sector count buffer : ℕ) → W
      → ℤ × W
  unfolding call
  dispatch op none sector count buffer w = (error, w)
  dispatch op (some o) sector count buffer w = call (op o) sector count buffer w

  pub blkdev_read : (dev sector count buffer : ℕ) → Blkdev W → W → ℤ × W
  blkdev_read dev sector count buffer b w =
      let d = b.devices dev in
      if dev == null || buffer == 0 || count == 0
      then (error, w)
      else if not (has_flag d.flags flag_present)
      then (error, w)
      else if not (ltb sector d.total_sectors)
      then (error, w)
      else dispatch (λ o. o.read) d.ops sector (clamp_count d.total_sectors sector count) buffer w

  pub blkdev_write : (dev sector count buffer : ℕ) → Blkdev W → W → ℤ × W
  blkdev_write dev sector count buffer b w =
      let d = b.devices dev in
      if dev == null || buffer == 0 || count == 0
      then (error, w)
      else if not (has_flag d.flags flag_present)
      then (error, w)
      else if has_flag d.flags flag_readonly
      then (error, w)
      else if not (ltb sector d.total_sectors)
      then (error, w)
      else dispatch (λ o. o.write) d.ops sector (clamp_count d.total_sectors sector count) buffer w

  pub blkdev_flush : ℕ → Blkdev W → W → ℤ × W
  blkdev_flush dev b w =
      let d = b.devices dev in
      if dev == null
      then (error, w)
      else if not (has_flag d.flags flag_present)
      then (error, w)
      else elim d.ops [
        | none ↦ (pos 0, w)
        | some o ↦ elim o.flush [ none ↦ (pos 0, w) | some flush ↦ flush w ]
      ]
