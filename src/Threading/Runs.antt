-- ===== src/Threading/Runs.antt =====
-- What threads see of threading.c, in any order of their steps.
use android_rtlpower.Base.{
  ℕ, zero, suc, ◌+◌, ◌≡◌, ◌≢◌, refl, Bool, true, false, List, [], ◌∷◌, arith,
}
use android_rtlpower.Base.Int.{ℤ, pos}
use android_rtlpower.Threading.{
  AtomicInt, atomic_int_getval_and_set, Waiter, Signaller, woken, signaller_wait, wake_up,
  signaller_signal, signaller_reset,
}

-- the number of threads that read 0 when `n` of them call `atomic_int_getval_and_set(var, 1)`
pub winners : ℕ → AtomicInt → ℕ
winners zero var = 0
winners (suc n) var =
    let (old, new) = atomic_int_getval_and_set var (pos 1) in winners n new + is_zero old
  where
    is_zero : ℤ → ℕ
    is_zero (pos zero) = 1
    is_zero v = 0

losers : (n : ℕ) → winners n (record { value = pos 1 }) ≡ 0
unfolding winners atomic_int_getval_and_set
losers zero = refl
losers (suc n) = omega (arith, losers n)

-- Of any number of threads, at least one, that exchange the value 0 for 1, exactly one reads the 0.
pub getval_and_set-winners : (n : ℕ) → winners (suc n) (record { value = pos 0 }) ≡ 1
unfolding winners atomic_int_getval_and_set
getval_and_set-winners n = omega (arith, losers n)

-- the steps of the threads, with the steps that may have let a thread return
pub data Call : Type 0 where
  wait wake : ℕ → Call
  signal reset : Call

pub perform : Call → Signaller → Signaller
unfolding signaller_wait wake_up signaller_signal signaller_reset
perform (Call.wait i) s = signaller_wait i s
perform (Call.wake i) s = wake_up i s
perform Call.signal s = signaller_signal s
perform Call.reset s = signaller_reset s

pub run : List Call → Signaller → Signaller
unfolding perform
run [] s = s
run (c ∷ cs) s = run cs (perform c s)

-- While the signal stands, no thread sleeps.
abbrev pub IsAwake : Signaller → Type 0
IsAwake s = s.already_called ≡ true → (i : ℕ) → s.threads i ≢ Waiter.asleep

woken_lem : (v : Waiter) → woken v ≢ Waiter.asleep
woken_lem Waiter.outside e = ground (arith, e)
woken_lem Waiter.asleep e = ground (arith, e)
woken_lem Waiter.returned e = ground (arith, e)

perform-IsAwake : (c : Call) (s : Signaller) → IsAwake s → IsAwake (perform c s)
unfolding perform
perform-IsAwake (Call.wait i) s k on j e = ground (arith, k on j, on, e)
perform-IsAwake (Call.wake i) s k on j e = ground (arith, woken_lem (s.threads i), k on j, e)
perform-IsAwake Call.signal s k on j e = woken_lem (s.threads j) e
perform-IsAwake Call.reset s k on j e = absurd (ground (arith, on))

-- If no thread sleeps while the signal stands, this is so after any steps.
run-IsAwake : (cs : List Call) (s : Signaller) → IsAwake s → IsAwake (run cs s)
unfolding run
run-IsAwake [] s k = k
run-IsAwake (c ∷ cs) s k = run-IsAwake cs (perform c s) (perform-IsAwake c s k)

-- No step is a reset.
abbrev pub no_reset : List Call → Bool
no_reset [] = true
no_reset (Call.reset ∷ cs) = false
no_reset (_ ∷ cs) = no_reset cs

stands :
    (cs : List Call) (s : Signaller)
    → no_reset cs ≡ true
    → s.already_called ≡ true
    → (run cs s).already_called ≡ true
unfolding run perform
stands [] s kept on = on
stands (Call.wait i ∷ cs) s kept on = stands cs (perform (Call.wait i) s) kept on
stands (Call.wake i ∷ cs) s kept on = stands cs (perform (Call.wake i) s) kept on
stands (Call.signal ∷ cs) s kept on = stands cs (perform Call.signal s) kept refl
stands (Call.reset ∷ cs) s kept on = absurd (ground (arith, kept))

-- No wake-up is lost: once `signaller_signal` has been called, whatever the threads did before and
-- do after, short of `signaller_reset`, the signal stands and no thread sleeps in `signaller_wait`,
-- neither one that slept when the signal came nor one that begins to wait later.
pub run-awake :
    (cs : List Call) (s : Signaller) (i : ℕ)
    → no_reset cs ≡ true
    → ((run (Call.signal ∷ cs) s).already_called ≡ true)
      × ((run (Call.signal ∷ cs) s).threads i ≢ Waiter.asleep)
unfolding run perform
run-awake cs s i kept =
    let signalled = perform Call.signal s in
    let on = stands cs signalled kept refl in
    (on, run-IsAwake cs signalled (λ e j. woken_lem (s.threads j)) on i)
