-- ===== src/Threads/Sched.antt =====
-- threads/thread.c: the scheduler, from `thread_unblock` to `thread_exit` and `thread_tick`.
use cs380l.Base.{
  ℕ, ◌+◌, ◌%◌, ◌^◌, Bool, true, false, not, ◌&&◌, [], ◌∷◌, none, some, ◌==◌, leb, if◌then◌else◌,
}
use cs380l.Threads.State.{
  running, ready, blocked, dying, off, on, born, restore, Thread, Kernel, update, Result, ok, panic,
  ◌>>=◌, ◌>>◌, assert, is_off, is_running, is_blocked, is_dying, is_thread, set_status, set_cont,
  push_back, remove,
}

-- The thread structure is returned; its address is `k.current`.
unfoldable pub thread_current : Kernel → Result Thread
thread_current k = elim (k.thread k.current) [
  | none ↦ panic
  | some th ↦ if is_running (some th) then ok th else panic
]

unfoldable pub thread_unblock : ℕ → Kernel → Result Kernel
thread_unblock t k = do
  assert (is_thread (k.thread t))
  assert (is_blocked (k.thread t))
  ok (set_status (record k { ready_list = push_back k.ready_list t }) t ready)

unfoldable pub intr_enable : Kernel → Result Kernel
intr_enable k = do assert (not k.in_external_intr); ok (record k { level = on })

unfoldable pub intr_disable : Kernel → Kernel
intr_disable k = record k { level = off }

unfoldable pub next_thread_to_run : Kernel → ℕ × Kernel
next_thread_to_run k = elim k.ready_list [
  | [] ↦ (k.idle_thread, k)
  | t ∷ ts ↦ (t, record k { ready_list = ts })
]

-- `prev` is 0, the null pointer, if no switch took place. The page of a dying thread is freed.
unfoldable pub thread_schedule_tail : ℕ → Kernel → Result Kernel
thread_schedule_tail prev k = do
  assert (is_off k.level)
  let j = record (set_status k k.current running) { thread_ticks = 0 }
  if not (prev == 0) && is_dying (j.thread prev) && not (prev == j.initial_thread)
      then assert (not (prev == j.current)) >> ok (record j { thread = update j.thread prev none })
      else ok j

-- What `schedule` does once the next thread is chosen.
unfoldable pub switch_to : ℕ → Kernel → Result Kernel
switch_to next k = do
  assert (is_off k.level)
  assert (is_thread (k.thread k.current) && not (is_running (k.thread k.current)))
  assert (is_thread (k.thread next))
  if k.current == next
      then thread_schedule_tail 0 k
      else thread_schedule_tail k.current (record k { current = next })

unfoldable pub schedule : Kernel → Result Kernel
schedule k = let (next, j) = next_thread_to_run k in switch_to next j

unfoldable pub thread_block : Kernel → Result Kernel
thread_block k = do
  assert (not k.in_external_intr)
  assert (is_off k.level)
  _ ← thread_current k
  schedule (set_status k k.current blocked)

-- When the thread runs again it restores the interrupt level, and goes on where it was.
unfoldable pub thread_yield : Kernel → Result Kernel
thread_yield k = do
  _ ← thread_current k
  assert (not k.in_external_intr)
  let j = set_cont (record k { level = off }) k.current (restore k.level (k.cont k.current))
  let queue = if k.current == k.idle_thread then k.ready_list else push_back k.ready_list k.current
  schedule (set_status (record j { ready_list = queue }) k.current ready)

unfoldable pub thread_exit : Kernel → Result Kernel
thread_exit k = do
  assert (not k.in_external_intr)
  _ ← thread_current k
  let j = record k { level = off; all_list = remove k.current k.all_list }
  schedule (set_status j k.current dying)

abbrev pub time_slice : ℕ
time_slice = 4

-- The result says whether `intr_yield_on_return` is called.
unfoldable pub thread_tick : Kernel → Result (Bool × Kernel)
thread_tick k = do
  _ ← thread_current k
  let n = (k.thread_ticks + 1) % 2 ^ 32
  let j =
      if k.current == k.idle_thread
      then record k { idle_ticks = k.idle_ticks + 1; thread_ticks = n }
      else record k { kernel_ticks = k.kernel_ticks + 1; thread_ticks = n }
  ok (leb time_slice n, j)

-- The timer interrupt: `thread_tick` in the context of an external interrupt, and on return from
-- the interrupt `thread_yield`, if the tick asked for it. It comes only while interrupts are on,
-- and the processor turns them off until the return.
unfoldable pub timer_interrupt : Kernel → Result Kernel
timer_interrupt k = do
  (wants, j) ← thread_tick (record k { level = off; in_external_intr = true })
  let back = record j { level = off; in_external_intr = false }
  if wants
      then thread_yield (set_cont back back.current (restore on (back.cont back.current)))
      else ok (record back { level = k.level })

abbrev pub pri_max : ℕ
pri_max = 63

-- The thread starts blocked, with its structure cleared. It will begin in `kernel_thread`.
unfoldable pub init_thread : ℕ → ℕ → Kernel → Result Kernel
init_thread t priority k = do
  assert (not (t == 0))
  assert (leb priority pri_max)
  let th : Thread = record { tid = 0; status = blocked; priority = priority }
  ok (record k {
    thread = update k.thread t (some th);
    cont = update k.cont t born;
    all_list = push_back k.all_list t;
  })

unfoldable pub thread_set_priority : ℕ → Kernel → Result Kernel
thread_set_priority priority k = do
  th ← thread_current k
  ok (record k { thread = update k.thread k.current (some (record th { priority = priority })) })

unfoldable pub thread_get_priority : Kernel → Result ℕ
thread_get_priority k = do th ← thread_current k; ok th.priority
