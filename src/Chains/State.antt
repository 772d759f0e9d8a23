-- ===== src/Chains/State.antt =====
-- lib/kernel/list.c: the `next` and `prev` pointers of all list elements, and the operations on them.
-- An address is a number, 0 is the null pointer, and a `struct list` at `l` is its head at `l` and its
-- tail at `l + 1`. `less` is the comparison with its `aux`. A loop has a `limit` on its rounds, and a
-- run past it is `panic`, like a failed ASSERT.
use cs380l.Base.{
  ℕ, zero, suc, ◌+◌, Bool, not, ◌||◌, ◌&&◌, ◌==◌, if◌then◌else◌, Result, ok, panic, ◌>>=◌, ◌>>◌,
  assert,
}

-- The two fields of every `struct list_elem`.
pub record Links : Type 0 where
  pub next : ℕ → ℕ
  pub prev : ℕ → ℕ

abbrev pub set_next : ℕ → ℕ → Links → Links
set_next p v h = record h { next = λ q. if p == q then v else h.next q }

abbrev pub set_prev : ℕ → ℕ → Links → Links
set_prev p v h = record h { prev = λ q. if p == q then v else h.prev q }

abbrev pub head_of : ℕ → ℕ
head_of list = list

abbrev pub tail_of : ℕ → ℕ
tail_of list = list + 1

abbrev pub is_head : ℕ → Links → Bool
is_head elem h = not (elem == 0) && (h.prev elem == 0 && not (h.next elem == 0))

abbrev pub is_interior : ℕ → Links → Bool
is_interior elem h = not (elem == 0) && (not (h.prev elem == 0) && not (h.next elem == 0))

abbrev pub is_tail : ℕ → Links → Bool
is_tail elem h = not (elem == 0) && (not (h.prev elem == 0) && h.next elem == 0)

unfoldable pub list_init : ℕ → Links → Result Links
list_init list h = do
  assert (not (list == 0))
  ok (
      set_next (tail_of list) 0 (
        set_prev (tail_of list) (head_of list)
          (set_next (head_of list) (tail_of list) (set_prev (head_of list) 0 h))))

unfoldable pub list_begin : ℕ → Links → Result ℕ
list_begin list h = do assert (not (list == 0)); ok (h.next (head_of list))

unfoldable pub list_next : ℕ → Links → Result ℕ
list_next elem h = do assert (is_head elem h || is_interior elem h); ok (h.next elem)

unfoldable pub list_end : ℕ → Result ℕ
list_end list = do assert (not (list == 0)); ok (tail_of list)

unfoldable pub list_rbegin : ℕ → Links → Result ℕ
list_rbegin list h = do assert (not (list == 0)); ok (h.prev (tail_of list))

unfoldable pub list_prev : ℕ → Links → Result ℕ
list_prev elem h = do assert (is_interior elem h || is_tail elem h); ok (h.prev elem)

unfoldable pub list_rend : ℕ → Result ℕ
list_rend list = do assert (not (list == 0)); ok (head_of list)

-- The four stores of `list_insert`, in their order.
abbrev pub link : ℕ → ℕ → Links → Links
link before elem h =
    let h1 = set_prev elem (h.prev before) h in
    let h2 = set_next elem before h1 in
    let h3 = set_next (h2.prev before) elem h2 in set_prev before elem h3

unfoldable pub list_insert : ℕ → ℕ → Links → Result Links
list_insert before elem h = do
  assert (is_interior before h || is_tail before h)
  assert (not (elem == 0))
  ok (link before elem h)

unfoldable pub list_push_front : ℕ → ℕ → Links → Result Links
list_push_front list elem h = do before ← list_begin list h; list_insert before elem h

unfoldable pub list_push_back : ℕ → ℕ → Links → Result Links
list_push_back list elem h = do before ← list_end list; list_insert before elem h

-- The two stores of `list_remove`.
abbrev pub unlink : ℕ → Links → Links
unlink elem h =
    let h1 = set_next (h.prev elem) (h.next elem) h in set_prev (h1.next elem) (h1.prev elem) h1

-- The element that follows is returned.
unfoldable pub list_remove : ℕ → Links → Result (ℕ × Links)
list_remove elem h = do assert (is_interior elem h); let j = unlink elem h; ok (j.next elem, j)

unfoldable pub list_empty : ℕ → Links → Result Bool
list_empty list h = do b ← list_begin list h; e ← list_end list; ok (b == e)

unfoldable pub list_front : ℕ → Links → Result ℕ
list_front list h = do empty ← list_empty list h; assert (not empty); ok (h.next (head_of list))

unfoldable pub list_back : ℕ → Links → Result ℕ
list_back list h = do empty ← list_empty list h; assert (not empty); ok (h.prev (tail_of list))

unfoldable pub list_pop_front : ℕ → Links → Result (ℕ × Links)
list_pop_front list h = do front ← list_front list h; (_, j) ← list_remove front h; ok (front, j)

unfoldable pub list_pop_back : ℕ → Links → Result (ℕ × Links)
list_pop_back list h = do back ← list_back list h; (_, j) ← list_remove back h; ok (back, j)

-- The loop of `list_size`, at `e`.
unfoldable pub size_from : ℕ → ℕ → ℕ → ℕ → Links → Result ℕ
size_from zero e cnt list h = panic
size_from (suc limit) e cnt list h =
    let rest = (do n ← list_next e h; size_from limit n (cnt + 1) list h) in
    if e == tail_of list then ok cnt else rest

unfoldable pub list_size : ℕ → ℕ → Links → Result ℕ
list_size limit list h = do e ← list_begin list h; size_from limit e 0 list h

-- The loop of `list_insert_ordered`: the first element that `elem` is less than.
unfoldable pub place_from : ℕ → (ℕ → ℕ → Bool) → ℕ → ℕ → ℕ → Links → Result ℕ
place_from zero less elem e list h = panic
place_from (suc limit) less elem e list h =
    let rest = (do n ← list_next e h; place_from limit less elem n list h) in
    if e == tail_of list then ok e else if less elem e then ok e else rest

unfoldable pub list_insert_ordered : ℕ → ℕ → ℕ → (ℕ → ℕ → Bool) → Links → Result Links
list_insert_ordered limit list elem less h = do
  assert (not (list == 0))
  assert (not (elem == 0))
  first ← list_begin list h
  e ← place_from limit less elem first list h
  list_insert e elem h

-- The loop of `list_max`, and of `list_min` with the comparison turned round.
unfoldable pub best_from : ℕ → (ℕ → ℕ → Bool) → ℕ → ℕ → ℕ → Links → Result ℕ
best_from zero less best e list h = panic
best_from (suc limit) less best e list h =
    let rest = (do
      n ← list_next e h
      best_from limit less (if less best e then e else best) n list h) in
    if e == tail_of list then ok best else rest

unfoldable pub list_max : ℕ → ℕ → (ℕ → ℕ → Bool) → Links → Result ℕ
list_max limit list less h = do
  max ← list_begin list h
  if max == tail_of list
      then ok max
      else (do e ← list_next max h; best_from limit less max e list h)

unfoldable pub list_min : ℕ → ℕ → (ℕ → ℕ → Bool) → Links → Result ℕ
list_min limit list less h = do
  min ← list_begin list h
  if min == tail_of list
      then ok min
      else (do e ← list_next min h; best_from limit (λ a b. less b a) min e list h)
