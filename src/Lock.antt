-- ===== src/Lock.antt =====
-- kernel/lock/spinlock.c and include/thuban/spinlock.h: a lock with the CPU that runs the code.
-- RFLAGS is the word that `pushfq` stores and `popfq` loads; its bit 9 says that interrupts are
-- enabled, and `cli` clears it. The name of a lock is its address, which no function reads.
pub mod Nesting
mod Tests
use thuban.Base.{ℕ, bit_and, Bool, if◌then◌else◌, ◌==◌}
use thuban.Base.Bits.{bit, complement_mask}

-- `spinlock_t`
pub record Spinlock : Type 0 where
  pub flags : ℕ
  pub locked : ℕ
  pub name : ℕ

-- One lock and RFLAGS.
pub record Guard : Type 0 where
  pub lock : Spinlock
  pub rflags : ℕ

-- The instruction `cli`.
pub cli : ℕ → ℕ
cli f = bit_and f (complement_mask 64 9)

pub interrupts_enabled : ℕ → Bool
interrupts_enabled f = bit f 9

pub spin_lock_init : ℕ → Guard → Guard
spin_lock_init name g = record g { lock = record { flags = 0; locked = 0; name = name } }

unfoldable pub spin_lock : Guard → Guard
spin_lock g = record {
  lock = record (g.lock) { flags = g.rflags; locked = 1 };
  rflags = cli g.rflags;
}

unfoldable pub spin_unlock : Guard → Guard
spin_unlock g = record { lock = record (g.lock) { locked = 0 }; rflags = g.lock.flags }

pub spin_trylock : Guard → ℕ × Guard
spin_trylock g =
    let held = record g { rflags = cli g.rflags } in
    if g.lock.locked == 0
    then (
      1,
      record { lock = record (g.lock) { flags = g.rflags; locked = 1 }; rflags = held.rflags },
    )
    else (0, record held { rflags = g.rflags })

pub spin_is_locked : Guard → ℕ
spin_is_locked g = g.lock.locked
