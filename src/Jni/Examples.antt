-- ===== src/Jni/Examples.antt =====
-- The theorem on common.c at a detached thread, and at one with a pending exception.
use android_rtlpower.Base.{true, none, some, [], ◌∷◌, arith}
use android_rtlpower.Jni.{Thread, Vm}
use android_rtlpower.Jni.Logging.{Undisturbed, log-Undisturbed}
use android_rtlpower.Jni.{log}

abbrev java : Vm
java = record {
  attaches = true;
  append_line = λ text. none;
  finds_class = true;
  finds_init = true;
  makes_object = true;
}

abbrev throwing : Thread
throwing = record { attached = true; pending = some 7; native_log = []; java_log = [] }

log-Undisturbed_example :
    Undisturbed java (b'h' ∷ b'i' ∷ []) throwing (log java (b'h' ∷ b'i' ∷ []) throwing)
log-Undisturbed_example = log-Undisturbed java (b'h' ∷ b'i' ∷ []) throwing λ h. ground (arith, h)
