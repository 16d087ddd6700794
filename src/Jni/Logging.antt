-- ===== src/Jni/Logging.antt =====
-- Logging does not disturb the thread that logs.
use android_rtlpower.Base.{
  ℕ, ◌≡◌, refl, Bool, true, false, ◌||◌, Option, none, some, List, ◌∷◌, arith, if◌then◌else◌,
}
use android_rtlpower.Jni.{Thread, Vm, attach_thread, detatch_thread, call_java, log}

-- the thread `t'` after `log`, called in `t`
abbrev pub Undisturbed : Vm → List ℕ → Thread → Thread → Type 0
Undisturbed vm text t t' =
    (t'.attached ≡ t.attached)
    × ((exception : ℕ) → t.pending ≡ some exception → t'.pending ≡ some exception)
    × (t.pending ≡ none → t'.pending ≡ (if t.attached then vm.append_line text else none))
    × (t'.native_log ≡ text ∷ t.native_log)
    × (t'.java_log ≡ (if t.attached || vm.attaches then text ∷ t.java_log else t.java_log))

abbrev thread : Bool → Option ℕ → List (List ℕ) → List (List ℕ) → Thread
thread attached pending native_log java_log = record {
  attached = attached;
  pending = pending;
  native_log = native_log;
  java_log = java_log;
}

abbrev machine : Bool → Vm → Vm
machine attaches vm = record vm { attaches = attaches }

module _ (vm : Vm) (text : List ℕ) (ns js : List (List ℕ)) where
  cases :
      (attached attaches : Bool) (pending : Option ℕ)
      → (attached ≡ false → pending ≡ none)
      → Undisturbed
          (machine attaches vm)
          text
          (thread attached pending ns js)
          (log (machine attaches vm) text (thread attached pending ns js))
  unfolding log attach_thread detatch_thread call_java
  cases true attaches none h = (refl, λ e at. cc, λ _. refl, refl, refl)
  cases true attaches (some x) h = (refl, λ e at. at, λ at. cc, refl, refl)
  cases false true none h = (refl, λ e at. cc, λ _. refl, refl, refl)
  cases false false none h = (refl, λ e at. cc, λ _. refl, refl, refl)
  cases false attaches (some x) h = absurd (ground (arith, h))

-- For a thread with no pending exception unless it is attached: `log` leaves it attached if and only
-- if it was, keeps an exception that was pending, leaves one of the logger itself only in a thread
-- that was attached, writes the text to the native log once, and once to Java's where the thread was
-- attached or could be.
pub log-Undisturbed :
    (vm : Vm) (text : List ℕ) (t : Thread)
    → (t.attached ≡ false → t.pending ≡ none)
    → Undisturbed vm text t (log vm text t)
log-Undisturbed vm text t h =
    cases vm text t.native_log t.java_log t.attached vm.attaches t.pending h
