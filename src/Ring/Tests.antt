-- ===== src/Ring/Tests.antt =====
-- A ring that goes round the end of its array.
use kernel_rs.Prelude.{◌≡◌, refl, List, [], ◌∷◌, none, some, ◌==◌, if◌then◌else◌, arith}
use kernel_rs.Ring.{Ring, push, pop}
use kernel_rs.Ring.Fifo.{contents, Op, put, get, run_ring, run_queue, run_refines}

abbrev late : Ring
late = record { buf = λ i. if i == 127 then 65 else 0; head = 0; tail = 127 }

abbrev script : List Op
script = put 66 ∷ get ∷ get ∷ get ∷ put 67 ∷ get ∷ []

script_runs : run_ring script late ≡ some 65 ∷ some 66 ∷ none ∷ some 67 ∷ []
unfolding run_ring push pop
script_runs = refl

run_refines_example : run_ring script late ≡ run_queue script (contents late)
run_refines_example = run_refines script late (omega arith)
