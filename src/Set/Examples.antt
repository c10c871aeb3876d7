-- ===== src/Set/Examples.antt =====
-- Sets of two slots, at which the theorems apply.
use vgpu_rs.Base.{ℕ, arith}
use vgpu_rs.Set.{Set, new}
use vgpu_rs.Set.View.{IsValid, new-IsValid}
use vgpu_rs.Set.Insert.{Insertion, insert-Insertion}
use vgpu_rs.Set.Remove.{Removal, remove-Removal}

abbrev nothing : Set ℕ
nothing = new 2

nothing-IsValid : IsValid 2 nothing
nothing-IsValid = new-IsValid ℕ 2 (omega arith) (omega arith)

-- The set that holds 5.
abbrev five : Set ℕ
five = (insert-Insertion 2 nothing 5 nothing-IsValid).0

five-IsValid : IsValid 2 five
five-IsValid = (insert-Insertion 2 nothing 5 nothing-IsValid).3

insert-Insertion_example : Insertion 2 nothing 5
insert-Insertion_example = insert-Insertion 2 nothing 5 nothing-IsValid

remove-Removal_example : Removal 2 five five-IsValid 0
remove-Removal_example = remove-Removal 2 five five-IsValid 0
