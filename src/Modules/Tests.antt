-- ===== src/Modules/Tests.antt =====
-- One live module with one reference, and a theorem applied to it.
use thuban.Base.{ℕ, ◌+◌, List, [], ◌∷◌}
use thuban.Modules.{Modules, live}
use thuban.Modules.Held.{Action, get, put, unload}

abbrev one_module : Modules
one_module = record {
  modules = λ p. record { name = 97 ∷ []; state = live; exit = 3; refcount = 1 };
  list = 5 ∷ [];
}

abbrev count_exits : ℕ → ℕ → ℕ
count_exits f w = w + 1

-- Another one takes a reference and puts two back, and both try to unload the module.
abbrev actions : List Action
actions = get 5 ∷ unload (97 ∷ []) ∷ put 5 ∷ put 5 ∷ unload (97 ∷ []) ∷ []
