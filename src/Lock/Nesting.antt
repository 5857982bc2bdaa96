-- ===== src/Lock/Nesting.antt =====
-- What the lock's functions promise: RFLAGS comes back, and interrupts are off in between.
use thuban.Base.{ℕ, ◌<◌, ◌≡◌, ◌≢◌, refl, ap, ◌∙◌, false, arith, if◌then◌else◌, ◌==◌}
use mathlib.Core.Path.{subst}
use native.Mathlib.Decide.{ℕ_discrete}
use thuban.Base.Bits.{bit, bit-clear_mask}
use thuban.Base.Store.{update, update_self, update_ne}
use thuban.Lock.{
  Spinlock, Guard, cli, interrupts_enabled, spin_lock, spin_unlock, spin_trylock, spin_is_locked,
}

-- `cli` turns interrupts off.
pub interrupts_enabled-cli : (f : ℕ) → interrupts_enabled (cli f) ≡ false
unfolding interrupts_enabled cli
interrupts_enabled-cli f = bit-clear_mask 64 f 9 9 (omega arith) (omega arith) ∙ ground arith

-- `cli` leaves the other 63 flags alone.
pub bit-cli : (f c : ℕ) → c < 64 → 9 ≢ c → bit (cli f) c ≡ bit f c
unfolding cli
bit-cli f c h ne = bit-clear_mask 64 f 9 c (omega arith) h ∙ ground arith

-- A critical section leaves RFLAGS as it was, and the lock free.
pub spin_unlock-spin_lock :
    (g : Guard)
    → ((spin_unlock (spin_lock g)).rflags ≡ g.rflags)
      × ((spin_unlock (spin_lock g)).lock.locked ≡ 0)
unfolding spin_unlock spin_lock
spin_unlock-spin_lock g = (refl, refl)

-- What `spin_trylock` did, from its result.
abbrev pub Tried : Guard → ℕ × Guard → Type 0
Tried g (got, h) =
    if got == 1
    then (spin_is_locked g ≡ 0) × (h ≡ spin_lock g)
    else (spin_is_locked g ≢ 0) × (h ≡ g) × (got ≡ 0)

-- `spin_trylock` returns 1 exactly when the lock is free, and then does what `spin_lock` does;
-- otherwise it returns 0 and changes neither the lock nor RFLAGS.
pub spin_trylock_lem : (g : Guard) → Tried g (spin_trylock g)
unfolding spin_trylock spin_lock spin_is_locked
spin_trylock_lem g = ground arith

-- `spin_lock` on a lock that is already held succeeds, and the saved flags are lost: after two
-- acquisitions and two releases interrupts are off, whatever they were.
pub relock_loses_interrupts :
    (g : Guard)
    → (spin_is_locked (spin_lock (spin_lock g)) ≡ 1)
      × (interrupts_enabled (spin_unlock (spin_unlock (spin_lock (spin_lock g)))).rflags ≡ false)
unfolding spin_unlock spin_lock spin_is_locked
relock_loses_interrupts g = (refl, interrupts_enabled-cli g.rflags)

-- A CPU and all the locks, by address.
pub record System : Type 0 where
  pub locks : ℕ → Spinlock
  pub rflags : ℕ

pub on_lock : (Guard → Guard) → ℕ → System → System
on_lock f k s =
    let g = f (record { lock = s.locks k; rflags = s.rflags }) in
    record { locks = update s.locks k g.lock; rflags = g.rflags }

-- Critical sections as the kernel writes them: take `k`, run the body, release `k`, go on.
pub data Section : Type 0 where
  done : Section
  hold : ℕ → Section → Section → Section

pub run : Section → System → System
unfolding on_lock
run done s = s
run (hold k body rest) s = run rest (on_lock spin_unlock k (run body (on_lock spin_lock k s)))

abbrev pub Avoids : ℕ → Section → Type 0
Avoids k done = Unit
Avoids k (hold j body rest) = (j ≢ k) × Avoids k body × Avoids k rest

-- No section takes a lock again that it already holds.
abbrev pub IsNested : Section → Type 0
IsNested done = Unit
IsNested (hold k body rest) = Avoids k body × IsNested body × IsNested rest

locks-on_lock_ne :
    (f : Guard → Guard) (j k : ℕ) (s : System) → j ≢ k → (on_lock f j s).locks k ≡ s.locks k
unfolding on_lock
locks-on_lock_ne f j k s h = update_ne s.locks j k _ h

locks-run-Avoids : (p : Section) (k : ℕ) (s : System) → Avoids k p → (run p s).locks k ≡ s.locks k
unfolding run
locks-run-Avoids done k s h = refl
locks-run-Avoids (hold j body rest) k s h =
    locks-run-Avoids rest k _ h.2
    ∙ locks-on_lock_ne spin_unlock j k _ h.0
    ∙ locks-run-Avoids body k _ h.1
    ∙ locks-on_lock_ne spin_lock j k s h.0

locks-lock_self : (k : ℕ) (s : System) → ((on_lock spin_lock k s).locks k).flags ≡ s.rflags
unfolding on_lock spin_lock
locks-lock_self k s = rw (update_self s.locks k _)

rflags-unlock : (k : ℕ) (s : System) → (on_lock spin_unlock k s).rflags ≡ (s.locks k).flags
unfolding on_lock spin_unlock
rflags-unlock k s = refl

rflags-lock : (k : ℕ) (s : System) → (on_lock spin_lock k s).rflags ≡ cli s.rflags
unfolding on_lock spin_lock
rflags-lock k s = refl

-- Critical sections that are properly nested, and never take a lock inside itself, leave RFLAGS as
-- they found it, however deep they go.
pub rflags-run : (p : Section) (s : System) → IsNested p → (run p s).rflags ≡ s.rflags
unfolding run
rflags-run done s n = refl
rflags-run (hold k body rest) s n =
    let inside = on_lock spin_lock k s in
    let left = run body inside in
    rflags-run rest (on_lock spin_unlock k left) n.2
    ∙ rflags-unlock k left
    ∙ ap (λ l. l.flags) (locks-run-Avoids body k inside n.0)
    ∙ locks-lock_self k s

-- The body of a critical section begins and ends with interrupts off, whatever it takes inside.
pub interrupts_enabled-body :
    (k : ℕ) (body : Section) (s : System)
    → IsNested body
    → (interrupts_enabled (on_lock spin_lock k s).rflags ≡ false)
      × (interrupts_enabled (run body (on_lock spin_lock k s)).rflags ≡ false)
unfolding run
interrupts_enabled-body k body s n = (off, ap interrupts_enabled (rflags-run body _ n) ∙ off)
  where
    off : interrupts_enabled (on_lock spin_lock k s).rflags ≡ false
    off = ap interrupts_enabled (rflags-lock k s) ∙ interrupts_enabled-cli s.rflags

locked-unlock_self : (k : ℕ) (s : System) → ((on_lock spin_unlock k s).locks k).locked ≡ 0
unfolding on_lock spin_unlock
locked-unlock_self k s = rw (update_self s.locks k _)

-- A lock that is free is free again after any critical sections.
pub locked-run :
    (p : Section) (s : System) (j : ℕ) → (s.locks j).locked ≡ 0 → ((run p s).locks j).locked ≡ 0
unfolding run
locked-run done s j h = h
locked-run (hold k body rest) s j h =
    let inside = on_lock spin_lock k s in
    let left = run body inside in
    locked-run rest (on_lock spin_unlock k left) j (elim (ℕ_discrete k j) [
      | yes e ↦
          subst (λ i. ((on_lock spin_unlock k left).locks i).locked ≡ 0) e
            (locked-unlock_self k left)
      | no ne ↦
          ap (λ l. l.locked) (locks-on_lock_ne spin_unlock k j left ne)
          ∙ locked-run body inside j (ap (λ l. l.locked) (locks-on_lock_ne spin_lock k j s ne) ∙ h)
    ])
