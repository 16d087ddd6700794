-- ===== src/Jni.antt =====
-- app/src/main/jni/common.c: how a native thread reaches Java. `attachThread` and `detatchThread`,
-- the log that both sides see, and `throwExceptionWithInt`. The Java VM is a parameter: what it answers to
-- a call, as its specification says. Exceptions are numbers.
pub mod Logging
mod Examples
use android_rtlpower.Base.{
  ℕ, zero, suc, Bool, true, false, ◌&&◌, Option, none, some, List, [], ◌∷◌, ◌==◌, if◌then◌else◌,
}

-- a thread as the VM sees it, and what was logged, the last text first
pub record Thread : Type 0 where
  pub attached : Bool
  pub pending : Option ℕ
  pub native_log : List (List ℕ)
  pub java_log : List (List ℕ)

-- What the VM answers: whether `AttachCurrentThread` works, the exception that the method of the
-- log throws, and whether the three calls of `throwExceptionWithInt` before `Throw` work.
pub record Vm : Type 0 where
  pub attaches : Bool
  pub append_line : List ℕ → Option ℕ
  pub finds_class : Bool
  pub finds_init : Bool
  pub makes_object : Bool

-- `attachThread`: 1 where it attached the thread, 2 where it was attached, 0 for a failure. `GetEnv`
-- tells whether the thread is attached, and leaves NULL where it is not.
pub attach_thread : Vm → Thread → ℕ × Thread
attach_thread vm t =
    if t.attached
    then (2, t)
    else if vm.attaches
    then (1, record t { attached = true; pending = none })
    else (0, t)

-- `detatchThread`; what is pending in a thread ends with its attachment
pub detatch_thread : (result_from_attach_thread : ℕ) → Thread → Thread
detatch_thread result_from_attach_thread t =
    if result_from_attach_thread == 1 then record t { attached = false; pending = none } else t

-- `__android_log_write`
abbrev write_native : List ℕ → Thread → Thread
write_native text t = record t { native_log = text ∷ t.native_log }

-- `Throw(env, pendingException)` where there is one
abbrev rethrow : Option ℕ → Thread → Thread
rethrow none t = t
rethrow (some exception) t = record t { pending = some exception }

-- the calls of Java in `log`, the pending exception being put aside
pub call_java : Vm → (text : List ℕ) → Thread → Thread
call_java vm text t =
    rethrow t.pending (record t { pending = vm.append_line text; java_log = text ∷ t.java_log })

-- `log(text)`; `env` is NULL where the thread is not attached
pub log : Vm → (text : List ℕ) → Thread → Thread
unfolding attach_thread detatch_thread call_java
log vm text t =
    let (res, attached) = attach_thread vm t in
    let written = write_native text attached in
    detatch_thread res (if written.attached then call_java vm text written else written)

-- `common_logf`; `output` is what `vasprintf` made, `none` where it failed
pub common_logf : Vm → (output : Option (List ℕ)) → Thread → Thread
unfolding log
common_logf vm none t = t
common_logf vm (some text) t = log vm text t

-- `throwExceptionWithInt`; the new exception is called by its code
pub throw_exception_with_int : Vm → (text : List ℕ) → (code : ℕ) → Thread → Thread
unfolding log
throw_exception_with_int vm text code t =
    if vm.finds_class && vm.finds_init && vm.makes_object
    then record t { pending = some code }
    else log vm text t
