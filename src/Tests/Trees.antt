-- ===== src/Tests/Trees.antt =====
-- The theorems on process trees, at a parent with three children.
use kaya_project.Base.{refl, ◌||◌, ltb, ◌==◌, if◌then◌else◌, [], ◌∷◌, arith, Returns}
use kaya_project.Machine.{null}
use kaya_project.Pcb.Table.{Pcbs}
use kaya_project.Pcb.Tree.{out_child}
use kaya_project.Pcb.Tree.Family.{IsFamily}
use kaya_project.Pcb.Tree.Out.{Left, out_child-erase}
use kaya_project.Tests.Blank.{blank_pcbs}

-- The children of block 0 are 1, 2 and 3.
abbrev family : Pcbs
family = record blank_pcbs {
  child = λ a. if a == 0 then 1 else null;
  sib = λ a. if a == 1 then 2 else if a == 2 then 3 else null;
  prevsib = λ a. if a == 2 then 1 else if a == 3 then 2 else null;
  prnt = λ a. if (a == 0) || ltb 3 a then null else 0;
}

family-IsFamily : IsFamily family 0 (1 ∷ 2 ∷ 3 ∷ [])
family-IsFamily = record {
  child = refl;
  chain = (refl, refl, (refl, refl, (refl, refl, tt)));
  prnt = λ a m. ground arith;
  distinct = (refl, (refl, (refl, tt)));
  cells = omega arith;
  cell = omega arith;
}

out_child-erase_example : Returns (Left family 2 0 (1 ∷ 2 ∷ 3 ∷ [])) (out_child 2 family)
out_child-erase_example = out_child-erase family 2 0 (1 ∷ 2 ∷ 3 ∷ []) family-IsFamily refl
