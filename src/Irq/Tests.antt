-- ===== src/Irq/Tests.antt =====
-- A handler on line 12 that leaves a number behind, and theorems applied to it.
use thuban.Base.{ℕ, ◌+◌, []}
use thuban.Irq.{Irq}

abbrev quiet : Irq
quiet = record { irq_handlers = λ i. 0; sent = [] }

abbrev count_calls : ℕ → Irq → ℕ → Irq × ℕ
count_calls handler s w = (s, w + handler)
