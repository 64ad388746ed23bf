-- ===== src/Tests/Containers.antt =====
-- Small sets, maps and arrays.
use kahypar.Prelude.{◌≡◌, refl, false, List, [], ◌∷◌, arith, if◌then◌else◌, count}
use kahypar.Prelude.Int.{ℤ, pos, ◌+ℤ◌, ◌==ℤ◌}
use kahypar.Containers.SparseSet
use kahypar.Containers.SparseSet.Bounds as SetBounds
use kahypar.Containers.SparseSet.Members.{count-values, contains-create}
use kahypar.Containers.SparseSet.Refine.{Op, insert, erase, run, model_run, run_refines}
use kahypar.Containers.InsertOnlySparseSet
use kahypar.Containers.InsertOnlySparseSet.Bounds as InsertOnlyBounds
use kahypar.Containers.InsertOnlySparseSet.Members as InsertOnlyMembers
use kahypar.Containers.SparseMap
use kahypar.Containers.SparseMap.Lookup
use kahypar.Containers.SparseMap.Refine as MapRefine
use kahypar.Containers.FastResetArray
use kahypar.Containers.FastResetArray.Reset
use kahypar.Containers.ConnectivitySet
use kahypar.Containers.ConnectivitySet.Members as BlockMembers

abbrev ops : List Op
ops = insert 3 ∷ insert 1 ∷ erase 3 ∷ insert 2 ∷ []

run_refines_example :
    SparseSet.contains (run (SparseSet.create 4) ops) 2 ≡ model_run (λ w. false) ops 2
unfolding SparseSet.create
run_refines_example =
    run_refines ops (SparseSet.create 4) (λ w. false) (SetBounds.create-IsValid 4)
      (omega arith, (omega arith, (omega arith, (omega arith, tt)))) (λ w h. contains-create 4 w) 2
      (omega arith)

abbrev three : SparseSet.SparseSet
three = SparseSet.add (SparseSet.create 4) 3

three-IsValid : SetBounds.IsValid three
unfolding SparseSet.create
three-IsValid =
    SetBounds.add-IsValid (SparseSet.create 4) 3 (SetBounds.create-IsValid 4) (omega arith)

count-values_example :
    count 3 (SparseSet.values three) ≡ (if SparseSet.contains three 3 then 1 else 0)
unfolding SparseSet.create SparseSet.add
count-values_example = count-values three 3 three-IsValid (ground arith)

abbrev marks : InsertOnlySparseSet.InsertOnlySparseSet
marks = InsertOnlySparseSet.add (InsertOnlySparseSet.create 4) 3

marks-IsValid : InsertOnlyBounds.IsValid marks
unfolding InsertOnlySparseSet.create
marks-IsValid =
    InsertOnlyBounds.add-IsValid (InsertOnlySparseSet.create 4) 3
      (InsertOnlyBounds.create-IsValid 4 (omega arith)) (omega arith)

contains-clear_example : InsertOnlySparseSet.contains (InsertOnlySparseSet.clear marks) 3 ≡ false
unfolding InsertOnlySparseSet.create InsertOnlySparseSet.add
contains-clear_example = InsertOnlyMembers.contains-clear marks 3 marks-IsValid (ground arith)

cells-add_example : (InsertOnlySparseSet.add marks 2).cells 8 ≡ marks.cells 8
unfolding InsertOnlySparseSet.create InsertOnlySparseSet.add
cells-add_example = InsertOnlyBounds.cells-add marks 2 8 marks-IsValid (ground arith) (ground arith)

abbrev gains : SparseMap.SparseMap ℤ
gains = SparseMap.add (SparseMap.create (record { key = 0; value = pos 0 }) 4 (pos 0)) 2 (pos 7)

gains-IsValid : Lookup.IsValid 4 gains
gains-IsValid =
    Lookup.add-IsValid 4 (SparseMap.create (record { key = 0; value = pos 0 }) 4 (pos 0)) 2 (pos 7)
      (Lookup.create-IsValid 4 (record { key = 0; value = pos 0 }) (pos 0)) (omega arith)

abbrev map_ops : List (MapRefine.Op ℤ)
map_ops =
    MapRefine.Op.change (λ x. x +ℤ pos 1) 2
    ∷ MapRefine.Op.erase 2
    ∷ MapRefine.Op.insert 1 (pos 3)
    ∷ []

run-lookup_example :
    Lookup.lookup (MapRefine.run (pos 0) gains map_ops) 1
    ≡ MapRefine.model_run (pos 0) (Lookup.lookup gains) map_ops 1
run-lookup_example =
    MapRefine.run-lookup (pos 0) 4 map_ops gains (Lookup.lookup gains) gains-IsValid
      (omega arith, (omega arith, (omega arith, tt))) (λ i l. refl) 1 (omega arith)

abbrev deltas : FastResetArray.FastResetArray
deltas = FastResetArray.set (FastResetArray.create (pos 0)) 2 (pos 5)

deltas-IsValid : Reset.IsValid deltas
deltas-IsValid =
    Reset.set-IsValid (FastResetArray.create (pos 0)) 2 (pos 5) (Reset.create-IsValid (pos 0))

flush-container_example :
    ((FastResetArray.flush_used_entries (pos 100) deltas (λ i. pos 1)).1 2
      ≡ (if pos 1 ==ℤ pos 100 then pos 1 else pos 1 +ℤ FastResetArray.get deltas 2))
    × (FastResetArray.get (FastResetArray.flush_used_entries (pos 100) deltas (λ i. pos 1)).0 2
        ≡ deltas.initial_value)
unfolding FastResetArray.create FastResetArray.set FastResetArray.note_use
flush-container_example = Reset.flush-container (pos 100) deltas (λ i. pos 1) 2 deltas-IsValid refl

abbrev blocks : ConnectivitySet.ConnectivitySet
blocks = record { contained_parts = 0 ∷ 2 ∷ [] }

blocks-IsValid : BlockMembers.IsValid blocks
unfolding count
blocks-IsValid a = ground arith
