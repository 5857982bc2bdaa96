-- ===== src/Vfs/Permission.antt =====
-- fs/vfs.c, from `is_path_writable` to `vfs_check_permission`, and the kinds of a node: who may open
-- a node for reading and for writing.
use thuban.Base.{
  ℕ, zero, suc, ◌^◌, ◌<◌, ◌≡◌, ◌≢◌, inl, inr, refl, ap, ◌∙◌, bit_and, Bool, true, false, not, ◌&&◌,
  ◌||◌, List, [], ◌∷◌, Option, none, some, ◌==◌, if◌then◌else◌, arith, Bool-cases, length,
}
use thuban.Base.Bits.{bit, bit_and-mask, bit-bit_and, bit-zero}
use thuban.Base.Int.{ℤ, pos, negsuc}
use thuban.CString.Compare.{same_text}
use thuban.Vfs.{null, any_flag, Node}

-- `(node->mode & S_IFMT) == S_IFDIR`, and `S_IFREG`.
pub vfs_is_directory : Node → Bool
vfs_is_directory n = bit_and n.mode 0xF000 == 0x4000

pub vfs_is_file : Node → Bool
vfs_is_file n = bit_and n.mode 0xF000 == 0x8000

-- "user" and "home".
abbrev pub user_text : List ℕ
user_text = 117 ∷ 115 ∷ 101 ∷ 114 ∷ []

abbrev pub home_text : List ℕ
home_text = 104 ∷ 111 ∷ 109 ∷ 101 ∷ []

-- The walk up the parents: `none` when the fuel ends before the root.
pub climb : ℕ → (ℕ → Node) → (found_user : Bool) → ℕ → Option Bool
climb zero nodes found_user n = none
climb (suc fuel) nodes found_user n =
    let name = (nodes n).name in
    let user = not found_user && same_text name user_text in
    let above = climb fuel nodes (found_user || user) (nodes n).parent in
    if n == null
    then some false
    else if not user && found_user && same_text name home_text
    then some true
    else above

pub is_path_writable : ℕ → (ℕ → Node) → (init_complete : Bool) → ℕ → Option Bool
unfolding climb
is_path_writable fuel nodes init_complete node =
    if node == null
    then some false
    else if not init_complete
    then some true
    else climb fuel nodes false node

-- The test of the second half, then 0.
pub check_read : Node → ℕ → ℤ
check_read n flags =
    if any_flag flags 0x2 then if bit_and n.mode 0x100 == 0 then negsuc 12 else pos 0 else pos 0

-- `-EACCES` is `negsuc 12`, `-ENOENT` is `negsuc 1`. The flags that write are O_WRONLY, O_RDWR,
-- O_CREAT, O_TRUNC and O_APPEND, and those that read are O_RDONLY, which is 0, and O_RDWR.
pub vfs_check_permission : ℕ → (ℕ → Node) → (init_complete : Bool) → ℕ → ℕ → Option ℤ
unfolding is_path_writable check_read
vfs_check_permission fuel nodes init_complete node flags =
    let n = nodes node in
    if node == null
    then some (negsuc 1)
    else if any_flag flags 0x643
    then (elim (is_path_writable fuel nodes init_complete node) [
      | none ↦ none
      | some writable ↦
          if not writable
          then some (negsuc 12)
          else if bit_and n.mode 0x80 == 0
          then some (negsuc 12)
          else some (check_read n flags)
    ])
    else some (check_read n flags)

-- The names on the way from a node to its root, the node's own first.
pub data Lineage (nodes : ℕ → Node) : ℕ → List (List ℕ) → Type 0 where
  root : Lineage nodes null []
  child :
      {n : ℕ} {names : List (List ℕ)}
      → n ≢ null
      → Lineage nodes (nodes n).parent names
      → Lineage nodes n ((nodes n).name ∷ names)

-- Somewhere on the way stands "home".
abbrev pub home_above : List (List ℕ) → Bool
home_above [] = false
home_above (x ∷ xs) = same_text x home_text || home_above xs

-- Somewhere on the way stands "user", and "home" above it.
abbrev pub under_home_user : List (List ℕ) → Bool
under_home_user [] = false
under_home_user (x ∷ xs) = (same_text x user_text && home_above xs) || under_home_user xs

home_above-under_home_user : (xs : List (List ℕ)) → under_home_user xs ≡ true → home_above xs ≡ true
home_above-under_home_user [] h = h
home_above-under_home_user (x ∷ xs) h = elim (Bool-cases (home_above xs)) [
  | inl e ↦ ground arith
  | inr e ↦ absurd (ground (arith, home_above-under_home_user xs))
]

climb-home_above :
    (fuel : ℕ) (nodes : ℕ → Node) (n : ℕ) (names : List (List ℕ))
    → Lineage nodes n names
    → length names < fuel
    → climb fuel nodes true n ≡ some (home_above names)
unfolding climb
climb-home_above zero nodes n names l h = absurd (omega arith)
climb-home_above (suc fuel) nodes n names root h = refl
climb-home_above (suc fuel) nodes n names (child nz l) h =
    let e : (n == null) ≡ false = ground arith in
    rw e (ground (arith, climb-home_above fuel nodes _ _ l (ground arith)))

above_user :
    (xs : List (List ℕ)) → some (home_above xs) ≡ some (home_above xs || under_home_user xs)
above_user xs = ground (arith, home_above-under_home_user xs)

climb-under_home_user :
    (fuel : ℕ) (nodes : ℕ → Node) (n : ℕ) (names : List (List ℕ))
    → Lineage nodes n names
    → length names < fuel
    → climb fuel nodes false n ≡ some (under_home_user names)
unfolding climb
climb-under_home_user zero nodes n names l h = absurd (omega arith)
climb-under_home_user (suc fuel) nodes n names root h = refl
climb-under_home_user (suc fuel) nodes n names (child nz l) h =
    let e : (n == null) ≡ false = ground arith in
    rw e (elim (Bool-cases (same_text (nodes n).name user_text)) [
      | inl user ↦ rw user (climb-home_above fuel nodes _ _ l (ground arith) ∙ above_user _)
      | inr other ↦ rw other (climb-under_home_user fuel nodes _ _ l (ground arith))
    ])

-- With a step of fuel for each node on the way to the root and one more, `is_path_writable` returns;
-- once the system has started, the answer is whether "user" stands on the way with "home" above it.
pub is_path_writable-under_home_user :
    (fuel : ℕ) (nodes : ℕ → Node) (n : ℕ) (names : List (List ℕ))
    → Lineage nodes n names
    → length names < fuel
    → is_path_writable fuel nodes true n ≡ some (under_home_user names)
unfolding is_path_writable
is_path_writable-under_home_user fuel nodes n names root h = refl
is_path_writable-under_home_user fuel nodes n names (child nz l) h =
    let e : (n == null) ≡ false = ground arith in
    rw e (climb-under_home_user fuel nodes n names (child nz l) h)

-- The permission to write, once the system has started: the node lies under /home/user and its owner
-- may write; O_RDWR needs the owner's right to read as well.
abbrev pub may_write : Node → List (List ℕ) → (flags : ℕ) → Bool
may_write n names flags =
    under_home_user names
    && any_flag n.mode 0x80
    && (not (any_flag flags 0x2) || any_flag n.mode 0x100)

-- After the start of the system, with fuel above the depth of the node: `vfs_check_permission` for
-- flags that write returns 0 exactly when "user" stands on the node's way to the root with "home"
-- anywhere above it, the owner may write, and with O_RDWR may read as well; otherwise it returns
-- -EACCES.
pub vfs_check_permission-may_write :
    (fuel : ℕ) (nodes : ℕ → Node) (n : ℕ) (names : List (List ℕ)) (flags : ℕ)
    → n ≢ null
    → Lineage nodes n names
    → length names < fuel
    → any_flag flags 0x643 ≡ true
    → vfs_check_permission fuel nodes true n flags
      ≡ some (if may_write (nodes n) names flags then pos 0 else negsuc 12)
unfolding vfs_check_permission check_read
vfs_check_permission-may_write fuel nodes n names flags nz l h w =
    let e : (n == null) ≡ false = ground arith in
    rw (e, w, climb-under_home_user fuel nodes n names l h) (ground arith)

bit_1_unset : (flags : ℕ) → bit_and flags 0x643 ≡ 0 → bit flags 1 ≡ false
unfolding bit
bit_1_unset flags h =
    let both : bit (bit_and flags 0x643) 1 ≡ (bit flags 1 && true) = bit-bit_and flags 0x643 1 in
    ground (arith, both, ap (λ w. bit w 1) h, bit-zero 1)

-- `vfs_check_permission` on a node returns 0 for all flags without O_WRONLY, O_RDWR, O_CREAT,
-- O_TRUNC and O_APPEND, O_RDONLY among them, whatever the mode of the node says.
pub vfs_check_permission-read_only :
    (fuel : ℕ) (nodes : ℕ → Node) (started : Bool) (n flags : ℕ)
    → n ≢ null
    → any_flag flags 0x643 ≡ false
    → vfs_check_permission fuel nodes started n flags ≡ some (pos 0)
unfolding vfs_check_permission check_read
vfs_check_permission-read_only fuel nodes started n flags nz h =
    let unset : bit_and flags (2 ^ 1) ≡ 0 =
      rw (bit_and-mask flags 1, bit_1_unset flags (ground arith)) refl in
    let none_read : bit_and flags 2 ≡ 0 = unset in
    let e : (n == null) ≡ false = ground arith in rw (e, h, none_read) refl
