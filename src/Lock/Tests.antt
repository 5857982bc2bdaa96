-- ===== src/Lock/Tests.antt =====
-- Two locks taken one inside the other, and theorems applied to them.
use thuban.Base.{◌^◌, ◌+◌, ◌≡◌, false, arith}
use thuban.Lock.{Guard, Spinlock, spin_lock, spin_unlock, spin_is_locked, interrupts_enabled}
use thuban.Lock.Nesting.{System, Section, done, hold, run, rflags-run, relock_loses_interrupts}

abbrev free : Spinlock
free = record { flags = 0; locked = 0; name = 0 }

abbrev enabled : Guard
enabled = record { lock = free; rflags = 2 ^ 9 }

abbrev two_locks : System
two_locks = record { locks = λ k. free; rflags = 2 ^ 9 + 2 }

-- The lock 1 inside the lock 0, then the lock 0 again.
abbrev nested : Section
nested = hold 0 (hold 1 done done) (hold 0 done done)

rflags-run_example : (run nested two_locks).rflags ≡ two_locks.rflags
rflags-run_example = rflags-run nested two_locks ((omega arith, tt, tt), (tt, tt, tt), (tt, tt, tt))

relock_loses_interrupts_example :
    (spin_is_locked (spin_lock (spin_lock enabled)) ≡ 1)
    × (interrupts_enabled (spin_unlock (spin_unlock (spin_lock (spin_lock enabled)))).rflags
        ≡ false)
relock_loses_interrupts_example = relock_loses_interrupts enabled
