-- ===== src/Chains/Tests.antt =====
-- A list at 100 that holds the elements 7 and 9.
use cs380l.Base.{ℕ, Result, ◌≡◌, refl, true, ◌==◌, ltb, if◌then◌else◌, [], ◌∷◌, ok, arith}
use cs380l.Chains.State.{
  Links, list_insert, list_remove, list_insert_ordered, list_begin, list_next, list_prev,
}
use cs380l.Chains.Segments.{IsList}
use cs380l.Chains.Insert.{IsNew, list_insert-IsList}
use cs380l.Chains.Remove.{list_remove-IsList}
use cs380l.Chains.Reorder.{
  list_reverse, list_sort, passes, pass_from, find_end_of_run, run_from, inplace_merge, merge_from,
  is_sorted, sorted_from, list_splice,
}
use cs380l.Chains.Reverse.{list_reverse-IsList}
use cs380l.Chains.Traverse.{ascending, list_insert_ordered-ascending}

abbrev links : Links
links = record {
  next = λ p. if p == 100 then 7 else if p == 7 then 9 else if p == 9 then 101 else 0;
  prev = λ p. if p == 7 then 100 else if p == 9 then 7 else if p == 101 then 9 else 0;
}

two : IsList links 100 (7 ∷ 9 ∷ [])
two = record {
  null = ground arith;
  before = refl;
  behind = refl;
  seg = (refl, refl, ground arith, (refl, refl, ground arith, (refl, refl)));
  apart = refl;
  no_head = refl;
  no_tail = refl;
}

eight : IsNew 8 100 (7 ∷ 9 ∷ [])
eight = record { null = ground arith; head = ground arith; tail = ground arith; out = refl }

list_insert-IsList_example :
    (j : Links) × (list_insert 9 8 links ≡ ok j) × IsList j 100 (7 ∷ 8 ∷ 9 ∷ [])
list_insert-IsList_example = list_insert-IsList links 100 (7 ∷ []) (9 ∷ []) 8 two eight

list_remove-IsList_example : (j : Links) × (list_remove 7 links ≡ ok (9, j)) × IsList j 100 (9 ∷ [])
list_remove-IsList_example = list_remove-IsList links 100 [] (9 ∷ []) 7 two

list_insert_ordered-ascending_example :
    (j : Links) × (list_insert_ordered 3 100 8 ltb links ≡ ok j)
    × IsList j 100 (7 ∷ 8 ∷ 9 ∷ [])
    × (ascending ltb (7 ∷ 8 ∷ 9 ∷ []) ≡ true)
list_insert_ordered-ascending_example =
    list_insert_ordered-ascending 3 100 8 ltb (7 ∷ 9 ∷ []) links two eight (omega arith)
      (λ x e. ground arith) refl

list_reverse-IsList_example :
    (k : Links) × (list_reverse 3 100 links ≡ ok k) × IsList k 100 (9 ∷ 7 ∷ [])
list_reverse-IsList_example = list_reverse-IsList 3 links 100 (7 ∷ 9 ∷ []) two (omega arith)

abbrev first_of : Result Links → ℕ
first_of (ok h) = h.next 100
first_of o = 0

-- In descending order the first element is 9.
list_sort_descending : first_of (list_sort 5 100 (λ a b. ltb b a) links) ≡ 9
unfolding list_sort passes pass_from find_end_of_run run_from inplace_merge merge_from is_sorted
    sorted_from list_splice list_begin list_next list_prev
list_sort_descending = refl
