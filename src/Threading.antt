-- ===== src/Threading.antt =====
-- app/src/main/jni/threading.c: integers behind a mutex, and a signal that threads wait for. A region
-- behind the mutex is one step; `pthread_cond_wait` ends one step and begins another. Threads are
-- numbered.
pub mod Runs
mod Examples
use android_rtlpower.Base.{ℕ, Bool, true, false, List, [], ◌∷◌, ◌==◌, if◌then◌else◌}
use android_rtlpower.Base.Int.{ℤ}

-- `atomic_int_t` without its mutex
pub record AtomicInt : Type 0 where
  pub value : ℤ

-- `atomic_int_init`
pub atomic_int_init : (value : ℤ) → AtomicInt
atomic_int_init value = record { value = value }

-- `atomic_int_getval`
pub atomic_int_getval : AtomicInt → ℤ
atomic_int_getval var = var.value

-- `atomic_int_setval`
pub atomic_int_setval : AtomicInt → (value : ℤ) → AtomicInt
atomic_int_setval var value = record { value = value }

-- `atomic_int_getval_and_set`
pub atomic_int_getval_and_set : AtomicInt → (value : ℤ) → ℤ × AtomicInt
atomic_int_getval_and_set var value = (var.value, record { value = value })

-- where a thread is in `signaller_wait`
pub data Waiter : Type 0 where
  outside asleep returned : Waiter

-- `thread_signaller_t` without its mutex, and the threads
pub record Signaller : Type 0 where
  pub already_called : Bool
  pub threads : ℕ → Waiter

abbrev pub moved : ℕ → Waiter → (ℕ → Waiter) → ℕ → Waiter
moved i v threads j = if j == i then v else threads j

-- thread `i` enters `signaller_wait`
pub signaller_wait : (i : ℕ) → Signaller → Signaller
signaller_wait i s = record s {
  threads = moved i (if s.already_called then Waiter.returned else Waiter.asleep) s.threads;
}

abbrev pub woken : Waiter → Waiter
woken Waiter.asleep = Waiter.returned
woken v = v

-- `pthread_cond_wait` returns in thread `i` although nobody signalled, which POSIX allows; what
-- follows is the return
pub wake_up : (i : ℕ) → Signaller → Signaller
wake_up i s = record s { threads = moved i (woken (s.threads i)) s.threads }

-- `signaller_signal`
pub signaller_signal : Signaller → Signaller
signaller_signal s = record { already_called = true; threads = λ i. woken (s.threads i) }

-- `signaller_reset`
pub signaller_reset : Signaller → Signaller
signaller_reset s = record s { already_called = false }
