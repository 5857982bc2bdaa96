-- ===== src/Vfs/Filesystems.antt =====
-- fs/vfs.c, from `vfs_register_filesystem` to `vfs_find_filesystem`: the list of file systems.
use thuban.Base.{
  Option-cases, ℕ, ◌≡◌, ◌≢◌, inl, inr, refl, Bool, true, false, not, List, [], ◌∷◌, Option, none,
  some, ◌==◌, if◌then◌else◌, arith, Bool-cases,
}
use mathlib.Core.Path.{subst}
use thuban.Base.Int.{ℤ, pos, negsuc}
use thuban.CString.Compare.{same_text, same_text_self}
use thuban.Vfs.{null, Filesystem, Vfs, acquire, release}

-- A file system without a name is not in the list.
pub fs_has_name : (ℕ → Filesystem) → ℕ → List ℕ → Bool
fs_has_name filesystems p name = elim (filesystems p).name [
  | none ↦ false
  | some n ↦ same_text n name
]

-- The loop of `vfs_find_filesystem`, and the search of `vfs_register_filesystem`.
unfoldable pub find_filesystem : (ℕ → Filesystem) → List ℕ → List ℕ → ℕ
unfolding fs_has_name
find_filesystem filesystems name [] = null
find_filesystem filesystems name (p ∷ ps) =
    if fs_has_name filesystems p name then p else find_filesystem filesystems name ps

pub remove_filesystem : (ℕ → Filesystem) → List ℕ → List ℕ → Option (List ℕ)
remove_filesystem filesystems name [] = none
remove_filesystem filesystems name (p ∷ ps) =
    let rest = remove_filesystem filesystems name ps in
    if fs_has_name filesystems p name
    then some ps
    else elim rest [ none ↦ none | some qs ↦ some (p ∷ qs) ]

module _ {W : Type 0} where
  pub vfs_register_filesystem : ℕ → Vfs W → ℤ × Vfs W
  unfolding acquire release find_filesystem
  vfs_register_filesystem fs v =
      let f = v.filesystems fs in
      if fs == null then (negsuc 0, v) else elim f.name [
        | none ↦ (negsuc 0, v)
        | some name ↦
            if not f.can_mount
            then (negsuc 0, v)
            else (let c = acquire v in
                if not (find_filesystem c.filesystems name c.fs_list == null)
                then (negsuc 0, release c)
                else (pos 0, release (record c { fs_list = fs ∷ c.fs_list })))
      ]

  pub vfs_unregister_filesystem : List ℕ → Vfs W → ℤ × Vfs W
  unfolding acquire release remove_filesystem
  vfs_unregister_filesystem name v =
      let c = acquire v in
      elim (remove_filesystem c.filesystems name c.fs_list) [
        | none ↦ (negsuc 0, release c)
        | some rest ↦ (pos 0, release (record c { fs_list = rest }))
      ]

-- No file system of the list has the name.
abbrev pub FreshName : (ℕ → Filesystem) → List ℕ → List ℕ → Type 0
FreshName filesystems name [] = Unit
FreshName filesystems name (p ∷ ps) =
    (fs_has_name filesystems p name ≡ false) × FreshName filesystems name ps

-- The addresses of a list are not NULL, and no two file systems of it have one name.
abbrev pub NamesDistinct : (ℕ → Filesystem) → List ℕ → Type 0
NamesDistinct filesystems [] = Unit
NamesDistinct filesystems (p ∷ ps) =
    (p ≢ null)
    × ((name : List ℕ) → (filesystems p).name ≡ some name → FreshName filesystems name ps)
    × NamesDistinct filesystems ps

find_filesystem-FreshName :
    (filesystems : ℕ → Filesystem) (name ps : List ℕ)
    → NamesDistinct filesystems ps
    → find_filesystem filesystems name ps ≡ null
    → FreshName filesystems name ps
unfolding find_filesystem
find_filesystem-FreshName filesystems name [] d h = tt
find_filesystem-FreshName filesystems name (p ∷ ps) d h =
    elim (Bool-cases (fs_has_name filesystems p name)) [
      | inl hit ↦ absurd (d.0 (rw hit at h))
      | inr miss ↦ (miss, find_filesystem-FreshName filesystems name ps d.2 (rw miss at h))
    ]

hit-fs_has_name :
    (filesystems : ℕ → Filesystem) (p : ℕ) (name : List ℕ)
    → (filesystems p).name ≡ some name
    → fs_has_name filesystems p name ≡ true
unfolding fs_has_name
hit-fs_has_name filesystems p name h = rw (fs_has_name, h) (same_text_self name)

module _ {W : Type 0} where
  -- `vfs_register_filesystem` keeps the names distinct.
  pub vfs_register_filesystem-NamesDistinct :
      (fs : ℕ) (v : Vfs W)
      → NamesDistinct v.filesystems v.fs_list
      → let w = (vfs_register_filesystem fs v).1 in NamesDistinct w.filesystems w.fs_list
  unfolding vfs_register_filesystem
  vfs_register_filesystem-NamesDistinct fs v d = elim (Bool-cases (fs == null)) [
    | inl z ↦ rw z d
    | inr nz ↦ rw nz (elim (Option-cases (v.filesystems fs).name) [
      | inl e ↦ rw e d
      | inr (name, e) ↦ rw e (elim (Bool-cases (v.filesystems fs).can_mount) [
        | inr c ↦ rw c d
        | inl c ↦ rw c (elim (Bool-cases (find_filesystem v.filesystems name v.fs_list == null)) [
          | inr t ↦ rw t d
          | inl t ↦
              let f = find_filesystem-FreshName v.filesystems name v.fs_list d (ground arith) in
              rw t (
                ground arith,
                λ other h.
                    subst (λ n. FreshName v.filesystems n v.fs_list)
                      (let same : name ≡ other = cc in same) f,
                d,
              )
        ])
      ])
    ])
  ]

  -- A file system that is not NULL, can mount and has a new name is registered; it is then found by
  -- its name, and unregistering the name gives back the list from before.
  pub vfs_unregister_filesystem-register :
      (fs : ℕ) (name : List ℕ) (v : Vfs W)
      → fs ≢ null
      → (v.filesystems fs).name ≡ some name
      → (v.filesystems fs).can_mount ≡ true
      → find_filesystem v.filesystems name v.fs_list ≡ null
      → let (r, w) = vfs_register_filesystem fs v in
        (r ≡ pos 0)
        × (find_filesystem w.filesystems name w.fs_list ≡ fs)
        × ((vfs_unregister_filesystem name w).0 ≡ pos 0)
        × ((vfs_unregister_filesystem name w).1.fs_list ≡ v.fs_list)
  unfolding vfs_register_filesystem vfs_unregister_filesystem
  vfs_unregister_filesystem-register fs name v nz named mounts new =
      let e : (fs == null) ≡ false = ground arith in
      let f : (find_filesystem v.filesystems name v.fs_list == null) ≡ true = ground arith in
      let hit = hit-fs_has_name v.filesystems fs name named in
      rw (e, named, mounts, f)
        (
          refl,
          rw (find_filesystem, hit) refl,
          rw (vfs_unregister_filesystem, remove_filesystem, hit) refl,
          rw (vfs_unregister_filesystem, remove_filesystem, hit) refl,
        )
