-- ===== src/Threads/Tests.antt =====
-- Runs of the kernel of threads/thread.c and threads/synch.c: the initial thread takes a lock, creates
-- a second thread and gives way to it, and the second thread waits for a semaphore or becomes the
-- idle thread.
use cs380l.Base.{◌≡◌, refl, true, false, inr, some, none, if◌then◌else◌, ◌∷◌, [], arith, ◌==◌}
use cs380l.Threads.State.{
  Kernel, Result, ok, panic, user, down, on, off, running, blocked, ready, of_lock, plain,
  is_running, is_ready, count,
}
use cs380l.Threads.Sched.{
  thread_current, thread_unblock, next_thread_to_run, thread_schedule_tail, switch_to, schedule,
  thread_yield, thread_block, thread_tick, timer_interrupt, init_thread,
}
use cs380l.Threads.Synch.{
  sema_down, sema_down_round, lock_held_by_current_thread, lock_acquire, lock_release,
  thread_create, resume, sema_up, idle_start, idle_round,
}
use cs380l.Threads.Step.{
  Reach, Step, start, later, acquires, resumes, creates_thread, yields, thread_init,
}
use cs380l.Threads.Queues.{Inv}
use cs380l.Threads.Safe.{Safe}
use cs380l.Threads.Safe.Steps.{Step-Safe, Reach-Safe}
use cs380l.Threads.Locks.{Locks}
use cs380l.Threads.Locks.Steps.{Reach-Locks, Step-Locks}
use cs380l.Threads.Exclusion.{mutual_exclusion, queues_exact}
use cs380l.Threads.Progress.{thread_yield-total, thread_block-total, sema_up_wakes, timer_rotates}

unfoldable after : Result Kernel → Kernel
after panic = thread_init 1
after (ok k) = k

abbrev boot : Kernel
boot = thread_init 1

abbrev called : Kernel
called = after (lock_acquire 5 user boot)

abbrev taken : Kernel
taken = after (resume called)

abbrev held : Kernel
held = after (resume taken)

abbrev creating : Kernel
creating = after (thread_create (some 2) 31 boot)

abbrev creating1 : Kernel
creating1 = after (resume creating)

abbrev creating2 : Kernel
creating2 = after (resume creating1)

abbrev creating3 : Kernel
creating3 = after (resume creating2)

abbrev creating4 : Kernel
creating4 = after (resume creating3)

abbrev created : Kernel
created = after (resume creating4)

abbrev yielded : Kernel
yielded = after (thread_yield created)

boot-Reach : Reach 1 boot
boot-Reach = start

called-Reach : Reach 1 called
unfolding after thread_init lock_acquire lock_held_by_current_thread thread_current sema_down
    sema_down_round thread_create init_thread resume lock_release sema_up thread_unblock
    thread_yield schedule next_thread_to_run switch_to thread_schedule_tail thread_block
    timer_interrupt thread_tick idle_start idle_round
called-Reach = later boot-Reach (acquires 5 (refl, ground arith) refl)

taken-Reach : Reach 1 taken
unfolding after thread_init lock_acquire lock_held_by_current_thread thread_current sema_down
    sema_down_round thread_create init_thread resume lock_release sema_up thread_unblock
    thread_yield schedule next_thread_to_run switch_to thread_schedule_tail thread_block
    timer_interrupt thread_tick idle_start idle_round
taken-Reach = later called-Reach (resumes refl)

held-Reach : Reach 1 held
unfolding after thread_init lock_acquire lock_held_by_current_thread thread_current sema_down
    sema_down_round thread_create init_thread resume lock_release sema_up thread_unblock
    thread_yield schedule next_thread_to_run switch_to thread_schedule_tail thread_block
    timer_interrupt thread_tick idle_start idle_round
held-Reach = later taken-Reach (resumes refl)

creating-Reach : Reach 1 creating
unfolding after thread_init lock_acquire lock_held_by_current_thread thread_current sema_down
    sema_down_round thread_create init_thread resume lock_release sema_up thread_unblock
    thread_yield schedule next_thread_to_run switch_to thread_schedule_tail thread_block
    timer_interrupt thread_tick idle_start idle_round
creating-Reach = later boot-Reach (creates_thread 2 31 (refl, ground arith) refl refl)

creating1-Reach : Reach 1 creating1
unfolding after thread_init lock_acquire lock_held_by_current_thread thread_current sema_down
    sema_down_round thread_create init_thread resume lock_release sema_up thread_unblock
    thread_yield schedule next_thread_to_run switch_to thread_schedule_tail thread_block
    timer_interrupt thread_tick idle_start idle_round
creating1-Reach = later creating-Reach (resumes refl)

creating2-Reach : Reach 1 creating2
unfolding after thread_init lock_acquire lock_held_by_current_thread thread_current sema_down
    sema_down_round thread_create init_thread resume lock_release sema_up thread_unblock
    thread_yield schedule next_thread_to_run switch_to thread_schedule_tail thread_block
    timer_interrupt thread_tick idle_start idle_round
creating2-Reach = later creating1-Reach (resumes refl)

creating3-Reach : Reach 1 creating3
unfolding after thread_init lock_acquire lock_held_by_current_thread thread_current sema_down
    sema_down_round thread_create init_thread resume lock_release sema_up thread_unblock
    thread_yield schedule next_thread_to_run switch_to thread_schedule_tail thread_block
    timer_interrupt thread_tick idle_start idle_round
creating3-Reach = later creating2-Reach (resumes refl)

creating4-Reach : Reach 1 creating4
unfolding after thread_init lock_acquire lock_held_by_current_thread thread_current sema_down
    sema_down_round thread_create init_thread resume lock_release sema_up thread_unblock
    thread_yield schedule next_thread_to_run switch_to thread_schedule_tail thread_block
    timer_interrupt thread_tick idle_start idle_round
creating4-Reach = later creating3-Reach (resumes refl)

created-Reach : Reach 1 created
unfolding after thread_init lock_acquire lock_held_by_current_thread thread_current sema_down
    sema_down_round thread_create init_thread resume lock_release sema_up thread_unblock
    thread_yield schedule next_thread_to_run switch_to thread_schedule_tail thread_block
    timer_interrupt thread_tick idle_start idle_round
created-Reach = later creating4-Reach (resumes refl)

yielded-Reach : Reach 1 yielded
unfolding after thread_init lock_acquire lock_held_by_current_thread thread_current sema_down
    sema_down_round thread_create init_thread resume lock_release sema_up thread_unblock
    thread_yield schedule next_thread_to_run switch_to thread_schedule_tail thread_block
    timer_interrupt thread_tick idle_start idle_round
yielded-Reach = later created-Reach (yields (refl, ground arith) refl)

-- Thread 1 runs, thread 2 waits for semaphore 4, and thread 3 is the idle thread.
abbrev waiting : Kernel
waiting = record {
  thread = λ t.
      if t == 1
      then some (record { tid = 1; status = running; priority = 31 })
      else if t == 2
      then some (record { tid = 2; status = blocked; priority = 31 })
      else if t == 3
      then some (record { tid = 3; status = ready; priority = 0 })
      else none;
  cont = λ t. if t == 2 then down (plain 4) on user else user;
  ready_list = [];
  all_list = 1 ∷ 3 ∷ 2 ∷ [];
  current = 1;
  idle_thread = 3;
  initial_thread = 1;
  next_tid = 4;
  thread_ticks = 3;
  idle_ticks = 0;
  kernel_ticks = 3;
  level = off;
  in_external_intr = false;
  semaphore = λ s. record { value = 0; waiters = if s == plain 4 then 2 ∷ [] else [] };
  holder = λ _. 0;
  cond_waiters = λ _. [];
}

waiting-Inv : Inv waiting
waiting-Inv = record {
  queued = record {
    null = refl;
    run = λ t. ground arith;
    queue = λ t. ground arith;
    all = λ t. ground arith;
    waiting = λ s t. ground arith;
    idle_waits = λ s. refl;
    idle_lives = refl;
  };
  current_runs = refl;
}

Reach-Inv : {k : Kernel} → Reach 1 k → Inv k
Reach-Inv r = (Reach-Safe (ground arith) r).inv

mutual_exclusion_example : (held.current ≡ held.holder 5) × ((held.semaphore (of_lock 5)).value ≡ 0)
unfolding after thread_init lock_acquire lock_held_by_current_thread thread_current sema_down
    sema_down_round thread_create init_thread resume lock_release sema_up thread_unblock
    thread_yield schedule next_thread_to_run switch_to thread_schedule_tail thread_block
    timer_interrupt thread_tick idle_start idle_round
mutual_exclusion_example =
    mutual_exclusion 5 1 1 (ground arith) held-Reach (inr (refl, ground arith))
      (inr (refl, ground arith))

queues_exact_example :
    (is_running (yielded.thread 1) ≡ false)
    × (count 1 yielded.ready_list ≡ 1)
    × (count 1 (yielded.semaphore (plain 4)).waiters ≡ 0)
unfolding after thread_init lock_acquire lock_held_by_current_thread thread_current sema_down
    sema_down_round thread_create init_thread resume lock_release sema_up thread_unblock
    thread_yield schedule next_thread_to_run switch_to thread_schedule_tail thread_block
    timer_interrupt thread_tick idle_start idle_round
queues_exact_example = queues_exact (plain 4) 1 (ground arith) yielded-Reach

taken-held : Step taken held
unfolding after thread_init lock_acquire lock_held_by_current_thread thread_current sema_down
    sema_down_round thread_create init_thread resume lock_release sema_up thread_unblock
    thread_yield schedule next_thread_to_run switch_to thread_schedule_tail thread_block
    timer_interrupt thread_tick idle_start idle_round
taken-held = resumes refl

Step-Safe_example : Safe held
unfolding after thread_init lock_acquire lock_held_by_current_thread thread_current sema_down
    sema_down_round thread_create init_thread resume lock_release sema_up thread_unblock
    thread_yield schedule next_thread_to_run switch_to thread_schedule_tail thread_block
    timer_interrupt thread_tick idle_start idle_round
Step-Safe_example = Step-Safe taken-held (Reach-Safe (ground arith) taken-Reach)

Step-Locks_example : Locks held
unfolding after thread_init lock_acquire lock_held_by_current_thread thread_current sema_down
    sema_down_round thread_create init_thread resume lock_release sema_up thread_unblock
    thread_yield schedule next_thread_to_run switch_to thread_schedule_tail thread_block
    timer_interrupt thread_tick idle_start idle_round
Step-Locks_example =
    Step-Locks taken-held (Reach-Safe (ground arith) taken-Reach)
      (Reach-Locks (ground arith) taken-Reach)

thread_yield-total_example :
    (j : Kernel) × (thread_yield created ≡ ok j)
    × (j.current ∷ j.ready_list ≡ 2 ∷ 1 ∷ [])
    × (is_running (j.thread j.current) ≡ true)
unfolding after thread_init lock_acquire lock_held_by_current_thread thread_current sema_down
    sema_down_round thread_create init_thread resume lock_release sema_up thread_unblock
    thread_yield schedule next_thread_to_run switch_to thread_schedule_tail thread_block
    timer_interrupt thread_tick idle_start idle_round
thread_yield-total_example =
    thread_yield-total created (Reach-Inv created-Reach) refl (ground arith)

thread_block-total_example :
    (j : Kernel) × (thread_block waiting ≡ ok j) × (j.current ≡ 3) × (j.ready_list ≡ [])
unfolding after thread_init lock_acquire lock_held_by_current_thread thread_current sema_down
    sema_down_round thread_create init_thread resume lock_release sema_up thread_unblock
    thread_yield schedule next_thread_to_run switch_to thread_schedule_tail thread_block
    timer_interrupt thread_tick idle_start idle_round
thread_block-total_example = thread_block-total waiting waiting-Inv refl refl (λ s. refl) refl

sema_up_wakes_example :
    (j : Kernel) × (sema_up (plain 4) waiting ≡ ok j)
    × ((j.semaphore (plain 4)).waiters ≡ [])
    × ((j.semaphore (plain 4)).value ≡ 1)
    × (j.ready_list ≡ 2 ∷ [])
    × (is_ready (j.thread 2) ≡ true)
    × (j.current ≡ 1)
unfolding after thread_init lock_acquire lock_held_by_current_thread thread_current sema_down
    sema_down_round thread_create init_thread resume lock_release sema_up thread_unblock
    thread_yield schedule next_thread_to_run switch_to thread_schedule_tail thread_block
    timer_interrupt thread_tick idle_start idle_round
sema_up_wakes_example = sema_up_wakes (plain 4) 2 [] waiting waiting-Inv refl

-- Thread 1 has had three ticks of its slice, and thread 2 is ready.
abbrev sharing : Kernel
sharing = record {
  thread = λ t.
      if t == 1
      then some (record { tid = 1; status = running; priority = 31 })
      else if t == 2
      then some (record { tid = 2; status = ready; priority = 31 })
      else if t == 3
      then some (record { tid = 3; status = ready; priority = 0 })
      else none;
  cont = λ t. user;
  ready_list = 2 ∷ [];
  all_list = 1 ∷ 3 ∷ 2 ∷ [];
  current = 1;
  idle_thread = 3;
  initial_thread = 1;
  next_tid = 4;
  thread_ticks = 3;
  idle_ticks = 0;
  kernel_ticks = 3;
  level = on;
  in_external_intr = false;
  semaphore = λ s. record { value = 0; waiters = [] };
  holder = λ _. 0;
  cond_waiters = λ _. [];
}

sharing-Inv : Inv sharing
sharing-Inv = record {
  queued = record {
    null = refl;
    run = λ t. ground arith;
    queue = λ t. ground arith;
    all = λ t. ground arith;
    waiting = λ s t. ground arith;
    idle_waits = λ s. refl;
    idle_lives = refl;
  };
  current_runs = refl;
}

timer_rotates_example :
    (j : Kernel) × (timer_interrupt sharing ≡ ok j)
    × (j.current ∷ j.ready_list ≡ 2 ∷ 1 ∷ [])
    × (is_running (j.thread j.current) ≡ true)
timer_rotates_example = timer_rotates sharing sharing-Inv (ground arith) refl
