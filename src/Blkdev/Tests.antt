-- ===== src/Blkdev/Tests.antt =====
-- Two disks, the first one registered, and theorems applied to them. The driver counts its calls.
use thuban.Base.{ℕ, ◌+◌, ◌^◌, ◌≡◌, refl, true, arith, [], ◌∷◌, if◌then◌else◌, ◌==◌, none, some}
use thuban.Base.Bits.{bit}
use thuban.Base.Int.{pos}
use thuban.CString.Compare.{same_text}
use thuban.Blkdev.{Device, Ops, Blkdev, listed, blkdev_register, blkdev_read}
use thuban.Blkdev.Registry.{IsValid, Registered, blkdev_register-Registered}
use thuban.Blkdev.Request.{Served, blkdev_read-Served}

abbrev disk_ops : Ops ℕ
disk_ops = record {
  read = some (λ sector count buffer w. (pos count, w + 1));
  write = some (λ sector count buffer w. (pos count, w + 1));
  flush = none;
}

-- The disk "a" at address 1, the disk "b" at any other.
abbrev disk : ℕ → Device ℕ
disk p = record {
  name = if p == 1 then 97 ∷ [] else 98 ∷ [];
  major = 0;
  minor = 0;
  total_sectors = 100;
  sector_size = 512;
  kind = 0;
  flags = 4;
  ops = some disk_ops;
}

abbrev one_disk : Blkdev ℕ
one_disk = record {
  devices = disk;
  list = 1 ∷ [];
  next_major = 1;
  guard = record { lock = record { flags = 0; locked = 0; name = 0 }; rflags = 2 ^ 9 };
}

one_disk-IsValid : IsValid one_disk
unfolding bit
one_disk-IsValid = (omega arith, refl, tt, tt)

one_disk-listed : listed 1 one_disk.list ≡ true
unfolding listed
one_disk-listed = refl

blkdev_register-Registered_example :
    Registered 2 one_disk (blkdev_register 2 one_disk) × IsValid (blkdev_register 2 one_disk).1
blkdev_register-Registered_example = blkdev_register-Registered 2 one_disk one_disk-IsValid

registered_second : (blkdev_register 2 one_disk).1.list ≡ 2 ∷ 1 ∷ []
unfolding blkdev_register same_text
registered_second = refl

blkdev_read-Served_example :
    Served (λ o. o.read) Unit 1 90 20 0x1000 (disk 1) 0 (blkdev_read 1 90 20 0x1000 one_disk 0)
blkdev_read-Served_example =
    blkdev_read-Served 1 90 20 0x1000 one_disk 0 (omega arith) (omega arith)
