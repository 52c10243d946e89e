-- ===== src/Container/Ring/Tests.antt =====
-- A ring buffer whose indexes have wrapped, one write short of growing.
use czx.Base.{ℕ, List, [], ◌∷◌, refl, ◌≡◌, arith}
use czx.Container.Ring.{RingBuffer}
use czx.Container.Ring.Inv.{IsValid}
use czx.Container.Ring.Refine.{contents}
use czx.Container.Ring.Script.{Op, writes, reads, pops, peeks, resets, run, run_list, run_refines}

abbrev wrapped : RingBuffer ℕ
wrapped = record { buf = 5 ∷ 6 ∷ 7 ∷ []; init = 2; size = 3; r = 2; w = 1 }

wrapped-IsValid : IsValid wrapped
wrapped-IsValid = record {
  sized = refl;
  started = omega arith;
  r_in = omega arith;
  w_in = omega arith;
}

abbrev calls : List (Op ℕ)
calls = writes 8 ∷ writes 9 ∷ reads ∷ pops ∷ peeks ∷ resets ∷ peeks ∷ []

run_refines_example : run 0 wrapped calls ≡ run_list (contents 0 wrapped) calls
run_refines_example = run_refines 0 calls wrapped wrapped-IsValid
