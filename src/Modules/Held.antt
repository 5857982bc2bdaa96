-- ===== src/Modules/Held.antt =====
-- A module that someone holds a reference of, while others take and put back references, and try to
-- unload modules.
use thuban.Base.{ℕ, ◌+◌, ◌-◌, ◌≡◌, Bool, true, ◌&&◌, List, [], ◌∷◌, ltb, ◌==◌, if◌then◌else◌}
use thuban.Modules.{is_live, Modules, module_unload, try_module_get, module_put}

-- The calls of others, with their arguments.
pub data Action : Type 0 where
  get : ℕ → Action
  put : ℕ → Action
  unload : List ℕ → Action

module _ {W : Type 0} (call : ℕ → W → W) where
  unfoldable pub act : Action → Modules × W → Modules × W
  act (get p) (m, w) = ((try_module_get p m).1, w)
  act (put p) (m, w) = (module_put p m, w)
  act (unload name) (m, w) = ((module_unload call name m w).1, (module_unload call name m w).2)

  unfoldable pub acts : List Action → Modules × W → Modules × W
  acts [] s = s
  acts (a ∷ rest) s = acts rest (act a s)

-- Do the others put back no more references of `p` than they have, `others` of them now?
unfoldable pub fair : (p others : ℕ) → List Action → Bool
fair p others [] = true
fair p others (get q ∷ rest) = fair p (if q == p then others + 1 else others) rest
fair p others (put q ∷ rest) =
    if q == p then ltb 0 others && fair p (others - 1) rest else fair p others rest
fair p others (unload name ∷ rest) = fair p others rest

-- `p` is live, and there are this many references.
abbrev pub Counts : (p count : ℕ) → Modules → Type 0
Counts p count m = (is_live (m.modules p).state ≡ true) × ((m.modules p).refcount ≡ count)
