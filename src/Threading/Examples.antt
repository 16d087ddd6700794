-- ===== src/Threading/Examples.antt =====
-- The theorems on threading.c at a few threads.
use android_rtlpower.Base.{◌≡◌, ◌≢◌, refl, true, false, List, [], ◌∷◌, ◌==◌, if◌then◌else◌}
use android_rtlpower.Threading.{Waiter, Signaller}
use android_rtlpower.Threading.Runs.{Call, run, run-awake}

-- thread 1 sleeps
abbrev sleeping : Signaller
sleeping = record {
  already_called = false;
  threads = λ i. if i == 1 then Waiter.asleep else Waiter.outside;
}

-- thread 2 waits after the signal, and thread 1 waits again
abbrev after_it : List Call
after_it = Call.wait 2 ∷ Call.wake 1 ∷ Call.wait 1 ∷ []

run-awake_example :
    ((run (Call.signal ∷ after_it) sleeping).already_called ≡ true)
    × ((run (Call.signal ∷ after_it) sleeping).threads 1 ≢ Waiter.asleep)
run-awake_example = run-awake after_it sleeping 1 refl
