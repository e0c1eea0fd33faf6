-- ===== src/Shadow/Iterate.antt =====
-- frontrun/dpor.py, GET_ITER and FOR_ITER: the reports of a loop over a container.
use frontrun.Prelude.{ℕ, zero, suc, List, [], ◌∷◌}
use frontrun.Shadow.{Object, Shadow, Runtime, Report, pop, read, whole}
use frontrun.Shadow.Ops.{for_iter}

-- A loop over `n` elements: each round is FOR_ITER and an instruction that takes the element away.
unfoldable pub rounds : Runtime → ℕ → Shadow → Shadow
rounds rt zero s = s
rounds rt (suc n) s = rounds rt n (pop (for_iter rt s))

-- The reads of the elements from `i` on, each with a read of the whole.
abbrev pub elements : Runtime → Object → ℕ → ℕ → List Report
elements rt c i zero = []
elements rt c i (suc n) =
    record { access = read; target = c; name = rt.repr_index i }
    ∷ record { access = read; target = c; name = whole }
    ∷ elements rt c (suc i) n
