-- ===== src/Chains/Reorder.antt =====
-- lib/kernel/list.c: the operations that move many elements, on the pointers.
use cs380l.Base.{
  ℕ, zero, suc, ◌+◌, Bool, true, false, not, ◌||◌, ◌&&◌, ◌==◌, ltb, if◌then◌else◌, Option, none,
  some, Result, ok, panic, ◌>>=◌, ◌>>◌, assert,
}
use cs380l.Chains.State.{
  Links, set_next, set_prev, head_of, tail_of, is_interior, is_tail, list_begin, list_next,
  list_prev, list_empty, list_remove, list_push_back,
}

-- The stores of `list_splice`, in their order.
abbrev pub splice : ℕ → ℕ → ℕ → Links → Links
splice before first last h =
    let h1 = set_next (h.prev first) (h.next last) h in
    let h2 = set_prev (h1.next last) (h1.prev first) h1 in
    let h3 = set_prev first (h2.prev before) h2 in
    let h4 = set_next last before h3 in
    let h5 = set_next (h4.prev before) first h4 in set_prev before last h5

unfoldable pub list_splice : ℕ → ℕ → ℕ → Links → Result Links
list_splice before first last h = do
  assert (is_interior before h || is_tail before h)
  if first == last then ok h else (do
    end ← list_prev last h
    assert (is_interior first h)
    assert (is_interior end h)
    ok (splice before first end h))

-- `swap` on the two fields of an element.
abbrev pub swap_links : ℕ → Links → Links
swap_links e h = set_next e (h.prev e) (set_prev e (h.next e) h)

-- The two calls of `swap` behind the loop of `list_reverse`.
abbrev pub swap_ends : ℕ → Links → Links
swap_ends list h =
    let h1 =
      set_prev (tail_of list) (h.next (head_of list))
        (set_next (head_of list) (h.prev (tail_of list)) h) in
    let a = h1.next (head_of list) in
    let b = h1.prev (tail_of list) in set_next b (h1.prev a) (set_prev a (h1.next b) h1)

unfoldable pub reverse_from : ℕ → ℕ → ℕ → Links → Result Links
reverse_from zero e list h = panic
reverse_from (suc limit) e list h =
    let rest = reverse_from limit ((swap_links e h).prev e) list (swap_links e h) in
    if e == tail_of list then ok h else rest

unfoldable pub list_reverse : ℕ → ℕ → Links → Result Links
list_reverse limit list h = do
  empty ← list_empty list h
  if empty then ok h else (do
    e ← list_begin list h
    turned ← reverse_from limit e list h
    ok (swap_ends list turned))

-- The loop of `is_sorted`, which starts at the element behind `a`.
unfoldable pub sorted_from : ℕ → (ℕ → ℕ → Bool) → ℕ → ℕ → Links → Result Bool
sorted_from zero less a b h = panic
sorted_from (suc limit) less a b h = do
  n ← list_next a h
  if n == b
      then ok true
      else (do p ← list_prev n h; if less n p then ok false else sorted_from limit less n b h)

unfoldable pub is_sorted : ℕ → (ℕ → ℕ → Bool) → ℕ → ℕ → Links → Result Bool
is_sorted limit less a b h = if a == b then ok true else sorted_from limit less a b h

unfoldable pub run_from : ℕ → (ℕ → ℕ → Bool) → ℕ → ℕ → Links → Result ℕ
run_from zero less a b h = panic
run_from (suc limit) less a b h = do
  n ← list_next a h
  if n == b
      then ok n
      else (do p ← list_prev n h; if less n p then ok n else run_from limit less n b h)

unfoldable pub find_end_of_run : ℕ → (ℕ → ℕ → Bool) → ℕ → ℕ → Links → Result ℕ
find_end_of_run limit less a b h = do
  assert (not (a == 0))
  assert (not (b == 0))
  assert (not (a == b))
  run_from limit less a b h

unfoldable pub merge_from : ℕ → (ℕ → ℕ → Bool) → ℕ → ℕ → ℕ → Links → Result Links
merge_from zero less a0 a1b0 b1 h = panic
merge_from (suc limit) less a0 a1b0 b1 h =
    if a0 == a1b0 || a1b0 == b1
    then ok h
    else if not (less a1b0 a0)
    then (do n ← list_next a0 h; merge_from limit less n a1b0 b1 h)
    else (do
      n ← list_next a1b0 h
      p ← list_prev n h
      j ← list_splice a0 p n h
      merge_from limit less a0 n b1 j)

unfoldable pub inplace_merge : ℕ → (ℕ → ℕ → Bool) → ℕ → ℕ → ℕ → Links → Result Links
inplace_merge limit less a0 a1b0 b1 h = do
  assert (not (a0 == 0))
  assert (not (a1b0 == 0))
  assert (not (b1 == 0))
  first ← is_sorted limit less a0 a1b0 h
  assert first
  second ← is_sorted limit less a1b0 b1 h
  assert second
  merge_from limit less a0 a1b0 b1 h

-- One pass of `list_sort` over the list, and the number of runs that it leaves.
unfoldable pub pass_from : ℕ → ℕ → (ℕ → ℕ → Bool) → ℕ → ℕ → ℕ → Links → Result (ℕ × Links)
pass_from zero limit less a0 output_run_cnt list h = panic
pass_from (suc rounds) limit less a0 output_run_cnt list h =
    if a0 == tail_of list then ok (output_run_cnt, h) else (do
      a1b0 ← find_end_of_run limit less a0 (tail_of list) h
      if a1b0 == tail_of list then ok (output_run_cnt + 1, h) else (do
        b1 ← find_end_of_run limit less a1b0 (tail_of list) h
        j ← inplace_merge limit less a0 a1b0 b1 h
        pass_from rounds limit less b1 (output_run_cnt + 1) list j))

unfoldable pub passes : ℕ → ℕ → (ℕ → ℕ → Bool) → ℕ → Links → Result Links
passes zero limit less list h = panic
passes (suc rounds) limit less list h = do
  a0 ← list_begin list h
  (output_run_cnt, j) ← pass_from limit limit less a0 0 list h
  if ltb 1 output_run_cnt then passes rounds limit less list j else ok j

unfoldable pub list_sort : ℕ → ℕ → (ℕ → ℕ → Bool) → Links → Result Links
list_sort limit list less h = do
  assert (not (list == 0))
  j ← passes limit limit less list h
  first ← list_begin list j
  sorted ← is_sorted limit less first (tail_of list) j
  assert sorted
  ok j

-- `duplicates` of `list_unique`, when it is not the null pointer, takes the element.
abbrev pub keep_duplicate : ℕ → ℕ → Links → Result Links
keep_duplicate duplicates e h =
    if not (duplicates == 0) then list_push_back duplicates e h else ok h

unfoldable pub unique_from : ℕ → (ℕ → ℕ → Bool) → ℕ → ℕ → ℕ → Links → Result Links
unique_from zero less e duplicates list h = panic
unique_from (suc limit) less e duplicates list h = do
  next ← list_next e h
  if next == tail_of list
      then ok h
      else if not (less e next) && not (less next e)
      then (do
        (_, removed) ← list_remove next h
        kept ← keep_duplicate duplicates next removed
        unique_from limit less e duplicates list kept)
      else unique_from limit less next duplicates list h

unfoldable pub list_unique : ℕ → ℕ → ℕ → (ℕ → ℕ → Bool) → Links → Result Links
list_unique limit list duplicates less h = do
  assert (not (list == 0))
  empty ← list_empty list h
  if empty then ok h else (do e ← list_begin list h; unique_from limit less e duplicates list h)

-- `comparator`, for the thread of each element; its `aux` is the address of a field, so not null.
abbrev pub comparator : (ℕ → ℕ) → ℕ → ℕ → Bool
comparator tid a b = if a == 0 || b == 0 then false else ltb (tid a) (tid b)

unfoldable pub index_from : ℕ → (ℕ → ℕ) → ℕ → ℕ → ℕ → ℕ → Links → Result (Option ℕ)
index_from zero tid target e index list h = panic
index_from (suc limit) tid target e index list h =
    if e == tail_of list
    then ok none
    else if tid target == tid e
    then ok (some index)
    else (do n ← list_next e h; index_from limit tid target n (index + 1) list h)

-- `get_sorted_index`, with `none` for -1. `target` is the element of the thread, or 0 for the null pointer.
unfoldable pub get_sorted_index : ℕ → (ℕ → ℕ) → ℕ → ℕ → Links → Result (Option ℕ × Links)
get_sorted_index limit tid threads target h =
    if threads == 0 || target == 0 then ok (none, h) else (do
      j ← list_sort limit threads (comparator tid) h
      e ← list_begin threads j
      index ← index_from limit tid target e 0 threads j
      ok (index, j))
