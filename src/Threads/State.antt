-- ===== src/Threads/State.antt =====
-- The state that threads/thread.c and threads/synch.c share: `struct thread`, the run queue, the
-- semaphores, locks and condition variables, and where each thread stands in the code.
pub use cs380l.Base.{Result, ok, panic, ◌>>=◌, ◌>>◌, assert, >>=-eq-ok}
use cs380l.Base.{
  ℕ, suc, ◌+◌, ◌*◌, Bool, true, false, List, [], ◌∷◌, Option, none, some, ◌==◌, if◌then◌else◌,
}

-- `enum thread_status`
pub data Status : Type 0 where
  running ready blocked dying : Status

-- `enum intr_level`
pub data Level : Type 0 where
  off on : Level

-- What a thread does when it is next given the processor: its saved stack, as far as thread.c and
-- synch.c put frames on it. Every place where interrupts may be on has a constructor.
pub data Cont : Type 0 where
  user : Cont  -- in its own code
  born : Cont  -- at the start of `kernel_thread`
  restore : Level → Cont → Cont  -- `thread_yield` after `schedule`
  down : ℕ → Level → Cont → Cont  -- at the head of the `while` of `sema_down`
  set_holder : ℕ → Cont → Cont  -- `lock_acquire` after `sema_down`
  give : ℕ → Cont → Cont  -- `lock_release` before `sema_up`
  wait : ℕ → Cont  -- `cond_wait` after `lock_release`
  reacquire : ℕ → Cont  -- `cond_wait` after `sema_down`
  broadcast : ℕ → ℕ → Cont  -- the `while` of `cond_broadcast`
  assign_tid : ℕ → Cont  -- `allocate_tid` after `lock_acquire`
  start_thread : ℕ → Cont  -- `thread_create` after `allocate_tid`

-- `struct thread`, named by its address
pub record Thread : Type 0 where
  pub tid : ℕ
  pub status : Status
  pub priority : ℕ

-- `struct semaphore`
pub record Semaphore : Type 0 where
  pub value : ℕ  -- unsigned
  pub waiters : List ℕ

-- Addresses are numbers, and 0 is the null pointer. `thread` is `none` where no thread lies, that
-- is, where `is_thread` is false.
pub record Kernel : Type 0 where
  pub thread : ℕ → Option Thread
  pub cont : ℕ → Cont
  pub ready_list : List ℕ
  pub all_list : List ℕ
  pub current : ℕ  -- `running_thread ()`, which the stack pointer tells
  pub idle_thread : ℕ
  pub initial_thread : ℕ
  pub next_tid : ℕ
  pub thread_ticks : ℕ
  pub idle_ticks : ℕ
  pub kernel_ticks : ℕ
  pub level : Level  -- `intr_get_level ()`
  pub in_external_intr : Bool  -- `intr_context ()`
  pub semaphore : ℕ → Semaphore
  pub holder : ℕ → ℕ  -- of each lock
  pub cond_waiters : ℕ → List ℕ  -- of each condition variable, the semaphores

-- Three kinds of semaphore, at different addresses: those that stand alone, those inside a lock,
-- and those on the stack of a thread in `cond_wait`.
abbrev pub plain : ℕ → ℕ
plain s = 3 * s

abbrev pub of_lock : ℕ → ℕ
of_lock l = 3 * l + 1

abbrev pub of_waiter : ℕ → ℕ
of_waiter t = 3 * t + 2

-- The `tid_lock` of thread.c.
abbrev pub tid_lock : ℕ
tid_lock = 0

abbrev pub update {ℓ} : {A : Type ℓ} → (ℕ → A) → ℕ → A → ℕ → A
update f a v b = if a == b then v else f b

abbrev pub is_off : Level → Bool
is_off off = true
is_off on = false

abbrev pub is_running : Option Thread → Bool
is_running none = false
is_running (some th) = elim th.status [ running ↦ true | _ ↦ false ]

abbrev pub is_ready : Option Thread → Bool
is_ready none = false
is_ready (some th) = elim th.status [ ready ↦ true | _ ↦ false ]

abbrev pub is_blocked : Option Thread → Bool
is_blocked none = false
is_blocked (some th) = elim th.status [ blocked ↦ true | _ ↦ false ]

abbrev pub is_dying : Option Thread → Bool
is_dying none = false
is_dying (some th) = elim th.status [ dying ↦ true | _ ↦ false ]

-- `is_thread`: the magic number is in place.
abbrev pub is_thread : Option Thread → Bool
is_thread none = false
is_thread (some th) = true

abbrev pub with_status : Status → Option Thread → Option Thread
with_status s none = none
with_status s (some th) = some (record th { status = s })

abbrev pub set_status : Kernel → ℕ → Status → Kernel
set_status k t s = record k { thread = update k.thread t (with_status s (k.thread t)) }

abbrev pub set_cont : Kernel → ℕ → Cont → Kernel
set_cont k t c = record k { cont = update k.cont t c }

abbrev pub set_semaphore : Kernel → ℕ → Semaphore → Kernel
set_semaphore k s m = record k { semaphore = update k.semaphore s m }

-- `list_push_back` and `list_remove` on a list of addresses
abbrev pub push_back : List ℕ → ℕ → List ℕ
push_back [] t = t ∷ []
push_back (u ∷ us) t = u ∷ push_back us t

abbrev pub remove : ℕ → List ℕ → List ℕ
remove t [] = []
remove t (u ∷ us) = if u == t then us else u ∷ remove t us

-- The number of times that a thread stands on a list.
abbrev pub count : ℕ → List ℕ → ℕ
count t [] = 0
count t (u ∷ us) = if u == t then suc (count t us) else count t us
