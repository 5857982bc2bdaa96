-- ===== src/Modules.antt =====
-- kernel/module/module.c and include/thuban/module.h: the list of kernel modules, their states and
-- their reference counts, and the calls of the initialisers.
-- A pointer to a module is an address, NULL is 0; the list that `module_list_head` begins is the
-- list of the addresses. The functions of a module are addresses that the parameter `call` runs on
-- the rest of the world `W`. The messages that are printed are left out, and so is `module_list`,
-- which prints; `module_load` is a stub that returns -1.
pub mod Registry
pub mod Held
mod Tests
use thuban.Base.{
  ℕ, zero, suc, ◌+◌, ◌-◌, ◌*◌, ◌/◌, ◌%◌, ◌^◌, Bool, true, false, not, ◌&&◌, ◌||◌, List, [], ◌∷◌,
  ◌++◌, Option, none, some, ltb, ◌==◌, if◌then◌else◌,
}
use thuban.Base.Int.{ℤ, pos, negsuc}
use thuban.Base.Store.{update}
use thuban.CString.Compare.{same_text}

abbrev pub null : ℕ
null = 0

-- `enum module_state`
pub data ModuleState : Type 0 where
  unloaded : ModuleState
  loading : ModuleState
  live : ModuleState
  unloading : ModuleState

pub is_live : ModuleState → Bool
is_live unloaded = false
is_live loading = false
is_live live = true
is_live unloading = false

-- `refcount > 0` for the 32 bits of an `int`, and `refcount++`, which wraps.
abbrev pub positive : ℕ → Bool
positive refcount = ltb 0 refcount && ltb refcount (2 ^ 31)

abbrev pub int_inc : ℕ → ℕ
int_inc refcount = (refcount + 1) % 2 ^ 32

-- `struct module`, less the texts that are only printed; `refcount` is the 32 bits of an `int`.
pub record Module : Type 0 where
  pub name : List ℕ
  pub state : ModuleState
  pub exit : ℕ
  pub refcount : ℕ

pub record Modules : Type 0 where
  pub modules : ℕ → Module
  pub list : List ℕ

pub module_register : ℕ → Modules → ℤ × Modules
module_register mod' m = if mod' == null then (negsuc 0, m) else (
  pos 0,
  record {
    modules = update m.modules mod' (record (m.modules mod') { state = live });
    list = mod' ∷ m.list;
  },
)

-- The loop of `module_find`.
pub find_module : (ℕ → Module) → List ℕ → List ℕ → ℕ
find_module modules name [] = null
find_module modules name (p ∷ ps) =
    if same_text (modules p).name name then p else find_module modules name ps

pub module_find : List ℕ → Modules → ℕ
unfolding find_module
module_find name m = find_module m.modules name m.list

-- The loop that takes the module out of the list.
unfoldable pub unlink_module : ℕ → List ℕ → List ℕ
unlink_module mod' [] = []
unlink_module mod' (p ∷ ps) = if p == mod' then ps else p ∷ unlink_module mod' ps

module _ {W : Type 0} where
  unfoldable pub module_unload : (call : ℕ → W → W) → List ℕ → Modules → W → ℤ × Modules × W
  unfolding module_find unlink_module
  module_unload call name m w =
      let mod' = module_find name m in
      if mod' == null
      then (negsuc 0, m, w)
      else if positive (m.modules mod').refcount
      then (negsuc 0, m, w)
      else (
        pos 0,
        record {
          modules = update m.modules mod' (record (m.modules mod') { state = unloaded });
          list = unlink_module mod' m.list;
        },
        if (m.modules mod').exit == null then w else call (m.modules mod').exit w,
      )

-- `__try_module_get`
pub try_module_get : ℕ → Modules → ℕ × Modules
unfolding is_live
try_module_get mod' m =
    let d = m.modules mod' in
    if mod' == null then (0, m) else if not (is_live d.state) then (0, m) else (
      1,
      record m { modules = update m.modules mod' (record d { refcount = int_inc d.refcount }) },
    )

-- `__module_put`
unfoldable pub module_put : ℕ → Modules → Modules
module_put mod' m =
    let d = m.modules mod' in
    if mod' == null
    then m
    else if positive d.refcount
    then record m { modules = update m.modules mod' (record d { refcount = d.refcount - 1 }) }
    else m

-- `if (ret != 0)`: a failure is noted, and the loop goes on.
pub note_failure : ℕ → ℤ → List (ℕ × ℤ) → List (ℕ × ℤ)
note_failure level (pos zero) failed = failed
note_failure level (pos (suc n)) failed = (level, pos (suc n)) ∷ failed
note_failure level (negsuc n) failed = (level, negsuc n) ∷ failed

module _ {W : Type 0} where
  -- The loop over one level: the addresses between its two symbols. The result
  -- lists what failed, with its level and return value.
  pub call_level : (call : ℕ → W → ℤ × W) → (level : ℕ) → List ℕ → W → List (ℕ × ℤ) × W
  call_level call level [] w = ([], w)
  call_level call level (f ∷ fs) w =
      let (ret, w') : ℤ × W = if f == null then (pos 0, w) else call f w in
      let (failed, w'') = call_level call level fs w' in (note_failure level ret failed, w'')

  -- The loop over the levels, from `level` on.
  pub module_init_builtin :
      (call : ℕ → W → ℤ × W) → (level : ℕ) → List (List ℕ) → W → List (ℕ × ℤ) × W
  unfolding call_level note_failure
  module_init_builtin call level [] w = ([], w)
  module_init_builtin call level (fs ∷ rest) w =
      let (failed, w') = call_level call level fs w in
      let (later, w'') = module_init_builtin call (level + 1) rest w' in (failed ++ later, w'')

-- `module_load` is not implemented yet.
pub module_load : List ℕ → ℤ
module_load name = negsuc 0
