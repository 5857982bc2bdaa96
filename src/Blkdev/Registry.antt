-- ===== src/Blkdev/Registry.antt =====
-- The list of block devices: no two of one name, all of them present, and what registering,
-- finding and unregistering do to it.
use thuban.Base.{
  ℕ, ◌≡◌, ◌≢◌, ◌⊎◌, inl, inr, refl, ap, sym, ◌∙◌, bit_and, true, false, List, [], ◌∷◌, some, ◌==◌,
  arith, Bool-cases,
}
use mathlib.Core.Path.{subst}
use thuban.Base.Bits.{complement_mask, bit, bit-set_mask, bit-clear_mask}
use thuban.Base.Store.{update, update_self, update_ne}
use thuban.Base.Int.{ℤ, pos}
use thuban.CString.Compare.{same_text, same_text_self, same_text_comm}
use thuban.Blkdev.{
  null, error, Device, Blkdev, can_read, find_name, prepare, blkdev_register, unlink, listed,
  blkdev_unregister, blkdev_find,
}

-- No device of the list has the name.
abbrev pub Fresh : {W : Type 0} → (ℕ → Device W) → List ℕ → List ℕ → Type 0
Fresh devices name [] = Unit
Fresh devices name (p ∷ ps) = (same_text (devices p).name name ≡ false) × Fresh devices name ps

-- No two devices of the list have one name, no address is NULL, and each device is present.
abbrev pub Sound : {W : Type 0} → (ℕ → Device W) → List ℕ → Type 0
Sound devices [] = Unit
Sound devices (p ∷ ps) =
    (p ≢ null)
    × (bit (devices p).flags 2 ≡ true)
    × Fresh devices (devices p).name ps
    × Sound devices ps

abbrev pub IsValid : {W : Type 0} → Blkdev W → Type 0
IsValid b = Sound b.devices b.list

module _ {W : Type 0} where
  -- The list is read through the names, so a change of other fields does not matter.
  Fresh-congr :
      (devices devices' : ℕ → Device W) (name : List ℕ) (ps : List ℕ)
      → ((p : ℕ) → (devices' p).name ≡ (devices p).name)
      → Fresh devices name ps
      → Fresh devices' name ps
  Fresh-congr devices devices' name [] same h = tt
  Fresh-congr devices devices' name (p ∷ ps) same h =
      (ap (λ n. same_text n name) (same p) ∙ h.0, Fresh-congr devices devices' name ps same h.1)

  Sound-congr :
      (devices devices' : ℕ → Device W) (ps : List ℕ)
      → ((p : ℕ) → (devices' p).name ≡ (devices p).name)
      → ((p : ℕ) → listed p ps ≡ true → (devices' p).flags ≡ (devices p).flags)
      → Sound devices ps
      → Sound devices' ps
  unfolding listed
  Sound-congr devices devices' [] same keep h = tt
  Sound-congr devices devices' (p ∷ ps) same keep h = (
    h.0,
    ap (λ f. bit f 2) (keep p (ground arith)) ∙ h.1,
    subst (λ n. Fresh devices' n ps) (sym (same p))
        (Fresh-congr devices devices' (devices p).name ps same h.2),
    Sound-congr devices devices' ps same (λ q l. keep q (ground (arith, l))) h.3,
  )

  -- The search finds nothing exactly when the name is fresh.
  find_name-Fresh :
      (devices : ℕ → Device W) (name ps : List ℕ)
      → Sound devices ps
      → find_name devices name ps ≡ null
      → Fresh devices name ps
  unfolding find_name
  find_name-Fresh devices name [] s h = tt
  find_name-Fresh devices name (p ∷ ps) s h = elim (Bool-cases (same_text (devices p).name name)) [
    | inl hit ↦ absurd (s.0 (rw hit at h))
    | inr miss ↦ (miss, find_name-Fresh devices name ps s.3 (rw miss at h))
  ]

  find_name-null :
      (devices : ℕ → Device W) (name ps : List ℕ)
      → Fresh devices name ps
      → find_name devices name ps ≡ null
  unfolding find_name
  find_name-null devices name [] h = refl
  find_name-null devices name (p ∷ ps) h = rw h.0 (find_name-null devices name ps h.1)

  -- A device whose name is fresh is not in the list.
  not_listed :
      (devices : ℕ → Device W) (dev : ℕ) (ps : List ℕ)
      → Fresh devices (devices dev).name ps
      → listed dev ps ≡ false
  unfolding listed
  not_listed devices dev [] h = refl
  not_listed devices dev (p ∷ ps) h = elim (Bool-cases (p == dev)) [
    | inl e ↦
        let same : p ≡ dev = ground arith in
        let hit = subst (λ q. same_text (devices q).name (devices dev).name ≡ false) same h.0 in
        ground (arith, same_text_self (devices dev).name, hit)
    | inr ne ↦ rw ne (not_listed devices dev ps h.1)
  ]

  name-prepare :
      (devices : ℕ → Device W) (n dev p : ℕ)
      → (update devices dev (prepare n (devices dev)) p).name ≡ (devices p).name
  unfolding update prepare
  name-prepare devices n dev p = elim (Bool-cases (dev == p)) [
    | inl e ↦ let same : dev ≡ p = ground arith in rw e (ap (λ q. (devices q).name) same)
    | inr ne ↦ rw ne refl
  ]

  flags-update :
      (devices : ℕ → Device W) (d : Device W) (dev p : ℕ) (ps : List ℕ)
      → listed dev ps ≡ false
      → listed p ps ≡ true
      → (update devices dev d p).flags ≡ (devices p).flags
  flags-update devices d dev p ps out l =
      ap (λ x. x.flags)
        (update_ne devices dev p d (λ e. ground (arith, subst (λ q. listed q ps ≡ true) (sym e) l)))

  present-prepare :
      (devices : ℕ → Device W) (n dev : ℕ)
      → bit (update devices dev (prepare n (devices dev)) dev).flags 2 ≡ true
  unfolding prepare
  present-prepare devices n dev =
      ap (λ d. bit d.flags 2) (update_self devices dev (prepare n (devices dev)))
      ∙ bit-set_mask (devices dev).flags 2 2

  Sound-register :
      (devices : ℕ → Device W) (n dev : ℕ) (ps : List ℕ)
      → dev ≢ null
      → Sound devices ps
      → Fresh devices (devices dev).name ps
      → Sound (update devices dev (prepare n (devices dev))) (dev ∷ ps)
  Sound-register devices n dev ps nz s f =
      let devices' = update devices dev (prepare n (devices dev)) in
      let same = name-prepare devices n dev in
      (
        nz,
        present-prepare devices n dev,
        subst (λ k. Fresh devices' k ps) (sym (same dev))
            (Fresh-congr devices devices' (devices dev).name ps same f),
        Sound-congr devices devices' ps same
            (λ p l. flags-update devices _ dev p ps (not_listed devices dev ps f) l) s,
      )

-- The two outcomes of `blkdev_register`: 0, the device in front of the list, in use from now on and
-- found by its name; or -1 and nothing changed, for a reason that the caller can check.
abbrev pub Registered : {W : Type 0} → ℕ → Blkdev W → ℤ × Blkdev W → Type 0
Registered dev b (r, b') =
    let name = (b.devices dev).name in
    ((r ≡ pos 0)
      × (b'.list ≡ dev ∷ b.list)
      × (find_name b'.devices name b'.list ≡ dev)
      × Fresh b.devices name b.list)
    ⊎ ((r ≡ error)
        × (b'.list ≡ b.list)
        × (b'.devices ≡ b.devices)
        × ((dev ≡ null)
            ⊎ (can_read (b.devices dev) ≡ false)
            ⊎ (find_name b.devices name b.list ≢ null)))

module _ {W : Type 0} where
  find_name-head :
      (devices : ℕ → Device W) (n dev : ℕ) (ps : List ℕ)
      → find_name (update devices dev (prepare n (devices dev))) (devices dev).name (dev ∷ ps) ≡ dev
  unfolding find_name
  find_name-head devices n dev ps =
      rw (name-prepare devices n dev dev, same_text_self (devices dev).name) refl

  -- From a valid list of devices, `blkdev_register` either returns 0 with the device, whose name
  -- was new, in front of the list and found by its name; or it returns -1 with the list and the
  -- devices unchanged, and the device is NULL, or it cannot read, or its name is taken. The list
  -- stays valid: no address NULL, all devices present, no two of one name.
  pub blkdev_register-Registered :
      (dev : ℕ) (b : Blkdev W)
      → IsValid b
      → Registered dev b (blkdev_register dev b) × IsValid (blkdev_register dev b).1
  unfolding blkdev_register
  blkdev_register-Registered dev b v = elim (Bool-cases (dev == null)) [
    | inl z ↦ rw z (inr (refl, refl, refl, inl (ground arith)), v)
    | inr nz ↦ rw nz (elim (Bool-cases (can_read (b.devices dev))) [
      | inr bad ↦ rw bad (inr (refl, refl, refl, inr (inl refl)), v)
      | inl ok ↦
          rw ok (elim (Bool-cases (find_name b.devices (b.devices dev).name b.list == null)) [
            | inr taken ↦ rw taken (inr (refl, refl, refl, inr (inr (ground arith))), v)
            | inl new ↦
                let f = find_name-Fresh b.devices (b.devices dev).name b.list v (ground arith) in
                rw new (
                  inl (refl, refl, find_name-head b.devices b.next_major dev b.list, f),
                  Sound-register b.devices b.next_major dev b.list (ground arith) v f,
                )
          ])
    ])
  ]

  Fresh-unlink :
      (devices : ℕ → Device W) (name : List ℕ) (dev : ℕ) (ps : List ℕ)
      → Fresh devices name ps
      → Fresh devices name (unlink dev ps)
  unfolding unlink
  Fresh-unlink devices name dev [] h = tt
  Fresh-unlink devices name dev (p ∷ ps) h = elim (Bool-cases (p == dev)) [
    | inl e ↦ rw e h.1
    | inr ne ↦ rw ne (h.0, Fresh-unlink devices name dev ps h.1)
  ]

  Fresh-listed :
      (devices : ℕ → Device W) (name : List ℕ) (dev : ℕ) (ps : List ℕ)
      → Fresh devices name ps
      → listed dev ps ≡ true
      → same_text (devices dev).name name ≡ false
  unfolding listed
  Fresh-listed devices name dev [] h l = cc
  Fresh-listed devices name dev (p ∷ ps) h l = elim (Bool-cases (p == dev)) [
    | inl e ↦
        let same : p ≡ dev = ground arith in
        subst (λ q. same_text (devices q).name name ≡ false) same h.0
    | inr ne ↦ Fresh-listed devices name dev ps h.1 (rw ne at l)
  ]

  -- Taking out a listed device leaves the others sound, and no device of its name.
  Sound-unlink :
      (devices : ℕ → Device W) (dev : ℕ) (ps : List ℕ)
      → Sound devices ps
      → listed dev ps ≡ true
      → Sound devices (unlink dev ps)
        × Fresh devices (devices dev).name (unlink dev ps)
        × (listed dev (unlink dev ps) ≡ false)
  unfolding unlink listed
  Sound-unlink devices dev [] s l = cc
  Sound-unlink devices dev (p ∷ ps) s l = elim (Bool-cases (p == dev)) [
    | inl e ↦
        let same : p ≡ dev = ground arith in
        let fresh = subst (λ q. Fresh devices (devices q).name ps) same s.2 in
        rw e (s.3, fresh, not_listed devices dev ps fresh)
    | inr ne ↦
        let l' = rw ne at l in
        let rest = Sound-unlink devices dev ps s.3 l' in
        let other =
          same_text_comm (devices p).name (devices dev).name
          ∙ Fresh-listed devices (devices p).name dev ps s.2 l' in
        rw (ne, ne)
          (
            (s.0, s.1, Fresh-unlink devices (devices p).name dev ps s.2, rest.0),
            (other, rest.1),
            rest.2,
          )
  ]

  name-update :
      (devices : ℕ → Device W) (d : Device W) (dev p : ℕ)
      → d.name ≡ (devices dev).name
      → (update devices dev d p).name ≡ (devices p).name
  unfolding update
  name-update devices d dev p h = elim (Bool-cases (dev == p)) [
    | inl e ↦ let same : dev ≡ p = ground arith in rw e (h ∙ ap (λ q. (devices q).name) same)
    | inr ne ↦ rw ne refl
  ]

  -- Unregistering a device that is in a valid list takes it out: it is no longer marked present, no
  -- device of its name is found, and the list stays valid.
  pub blkdev_unregister-find :
      (dev : ℕ) (b : Blkdev W)
      → dev ≢ null
      → IsValid b
      → listed dev b.list ≡ true
      → let b' = blkdev_unregister dev b in
        IsValid b'
        × (b'.list ≡ unlink dev b.list)
        × (bit (b'.devices dev).flags 2 ≡ false)
        × ((blkdev_find (some (b.devices dev).name) b').0 ≡ null)
  unfolding blkdev_unregister blkdev_find
  blkdev_unregister-find dev b nz v l =
      let d = b.devices dev in
      let d' = record d { flags = bit_and d.flags (complement_mask 32 2) } in
      let devices' = update b.devices dev d' in
      let same = λ (p : ℕ). name-update b.devices d' dev p refl in
      let (sound, fresh, out) = Sound-unlink b.devices dev b.list v l in
      let e : (dev == null) ≡ false = ground arith in
      rw (e, l)
        (
          Sound-congr b.devices devices' (unlink dev b.list) same
              (λ p k. flags-update b.devices d' dev p (unlink dev b.list) out k) sound,
          refl,
          ap (λ x. bit x.flags 2) (update_self b.devices dev d')
              ∙ bit-clear_mask 32 d.flags 2 2 (omega arith) (omega arith),
          find_name-null devices' d.name (unlink dev b.list)
              (Fresh-congr b.devices devices' d.name (unlink dev b.list) same fresh),
        )
