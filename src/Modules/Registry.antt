-- ===== src/Modules/Registry.antt =====
-- Finding, holding and unloading a registered module.
use thuban.Base.{
  ℕ, ◌+◌, ◌-◌, ◌<◌, ◌^◌, ◌≡◌, ◌≢◌, refl, ap, true, false, ◌==◌, ==_refl, arith, Bool-cases, inl,
  inr,
}
use thuban.Base.Int.{pos}
use thuban.Base.Store.{update, update_self}
use thuban.CString.Compare.{same_text_self}
use thuban.Modules.{
  null, live, is_live, positive, int_inc, Module, Modules, module_register, find_module,
  module_find, try_module_get, module_put,
}

-- A registered module is found by its name, in front of any other of that name, and it is live:
-- `try_module_get` succeeds.
pub module_find-register :
    (m' : ℕ) (m : Modules)
    → m' ≢ null
    → let (r, w) = module_register m' m in
      (r ≡ pos 0) × (module_find (m.modules m').name w ≡ m') × ((try_module_get m' w).0 ≡ 1)
unfolding module_register module_find try_module_get is_live
module_find-register m' m nz =
    let e : (m' == null) ≡ false = ground arith in
    let d : Module = record (m.modules m') { state = live } in
    let at : update m.modules m' d m' ≡ d = update_self m.modules m' d in
    rw e (
      refl,
      rw (find_module, at, same_text_self (m.modules m').name) refl,
      rw (try_module_get, at) refl,
    )

-- What a successful `try_module_get` did.
pub got-try_module_get :
    (m' : ℕ) (m : Modules)
    → (try_module_get m' m).0 ≡ 1
    → (m' ≢ null)
      × (is_live (m.modules m').state ≡ true)
      × ((try_module_get m' m).1 ≡ record m {
        modules =
            update m.modules m'
              (record (m.modules m') { refcount = int_inc (m.modules m').refcount });
      })
unfolding try_module_get
got-try_module_get m' m got = elim (Bool-cases (m' == null)) [
  | inl z ↦ absurd (let bad : 0 ≡ 1 = rw z at got in omega arith)
  | inr nz ↦ elim (Bool-cases (is_live (m.modules m').state)) [
    | inr dead ↦ absurd (let bad : 0 ≡ 1 = rw (nz, dead) at got in omega arith)
    | inl alive ↦ (ground arith, alive, rw (nz, alive) refl)
  ]
]

-- Below the largest `int`, putting back the reference that a successful `try_module_get` took leaves
-- every module as it was.
pub module_put-try_module_get :
    (m' p : ℕ) (m : Modules)
    → (try_module_get m' m).0 ≡ 1
    → (m.modules m').refcount + 1 < 2 ^ 31
    → (module_put m' (try_module_get m' m).1).modules p ≡ m.modules p
unfolding module_put update
module_put-try_module_get m' p m got small =
    let (nz, _, held) = got-try_module_get m' m got in
    let e : (m' == null) ≡ false = ground arith in
    let k = (m.modules m').refcount in
    let some_held : positive (int_inc k) ≡ true = ground (arith, small) in
    let back : int_inc k - 1 ≡ k = omega (arith, small) in
    rw (held, e, ==_refl m', some_held, back)
      (elim (Bool-cases (m' == p)) [
        | inr other ↦ rw (update, other) refl
        | inl same ↦ let equal : m' ≡ p = ground arith in rw (update, same) (ap m.modules equal)
      ])
