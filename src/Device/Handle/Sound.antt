-- ===== src/Device/Handle/Sound.antt =====
-- The devices of `openAsync` that are open, and what one event does to them.
use android_rtlpower.Base.{
  ℕ, ◌+◌, ◌≡◌, refl, sym, ap, ◌∙◌, Bool, true, false, ◌&&◌, Option, none, some, List, [], ◌∷◌, ◌==◌,
  arith, if◌then◌else◌,
}
use mathlib.Core.Path.{subst}
use android_rtlpower.SdrTcp.{SdrTcp, Stage, sdrtcp_open_socket}
use android_rtlpower.Device.Handle.{
  RtlsdrAndroid, UsbCall, Doing, Session, Event, refused, publish, withdraw, close_server,
  rtlsdr_callback, cancelled, controlled, tcp_closed_callback, command_callback, session, open_on,
  serve_on, return_on, happen,
}

-- how often a device was closed
abbrev pub closes_of : ℕ → List UsbCall → ℕ
closes_of d [] = 0
closes_of d (UsbCall.close e ∷ calls) = (if d == e then 1 else 0) + closes_of d calls
closes_of d (_ ∷ calls) = closes_of d calls

-- how often a device was opened
abbrev pub opens_of : ℕ → List UsbCall → ℕ
opens_of d [] = 0
opens_of d (UsbCall.open2 e ∷ calls) = (if d == e then 1 else 0) + opens_of d calls
opens_of d (_ ∷ calls) = opens_of d calls

-- Every call is on a device that is open; the last call stands first.
abbrev pub never_late : List UsbCall → Bool
never_late [] = true
never_late (UsbCall.open2 e ∷ calls) = (closes_of e calls == opens_of e calls) && never_late calls
never_late (UsbCall.close e ∷ calls) =
    (closes_of e calls + 1 == opens_of e calls) && never_late calls
never_late (UsbCall.cancel_async e ∷ calls) =
    (closes_of e calls + 1 == opens_of e calls) && never_late calls
never_late (UsbCall.control e ∷ calls) =
    (closes_of e calls + 1 == opens_of e calls) && never_late calls

-- whether a device is in use
abbrev pub uses : ℕ → Doing → ℕ
uses d Doing.idle = 0
uses d (Doing.opening e) = if d == e then 1 else 0
uses d (Doing.reading e) = if d == e then 1 else 0

abbrev pub published : Doing → Option ℕ
published Doing.idle = none
published (Doing.opening d) = none
published (Doing.reading d) = some d

-- Exactly the device in use is open.
pub record IsSound (dev : RtlsdrAndroid) (doing : Doing) (calls : List UsbCall) : Type 0 where
  pub shown : dev.rtl_dev ≡ published doing
  pub balanced : (d : ℕ) → closes_of d calls + uses d doing ≡ opens_of d calls
  pub in_time : never_late calls ≡ true

still :
    {dev dev' : RtlsdrAndroid} {doing : Doing} {calls : List UsbCall}
    → dev'.rtl_dev ≡ dev.rtl_dev
    → IsSound dev doing calls
    → IsSound dev' doing calls
still e is = record { shown = e ∙ is.shown; balanced = is.balanced; in_time = is.in_time }

open_on-IsSound :
    (device : ℕ) (result : Bool × SdrTcp) (doing : Doing) (dev : RtlsdrAndroid)
    (calls : List UsbCall)
    → IsSound dev doing calls
    → (dev' : RtlsdrAndroid) × (doing' : Doing) × (calls' : List UsbCall) × (open_on device result
          doing dev calls
        ≡ session dev' doing' calls')
      × IsSound dev' doing' calls'
open_on-IsSound device (true, serv) Doing.idle dev calls is = (
  record dev { tcpserv = serv },
  Doing.opening device,
  UsbCall.open2 device ∷ calls,
  refl,
  record {
    shown = is.shown;
    balanced = λ d. omega (arith, is.balanced d);
    in_time = ground (arith, is.balanced device, is.in_time);
  },
)
open_on-IsSound device (false, serv) Doing.idle dev calls is = (
  record dev { tcpserv = serv },
  Doing.idle,
  UsbCall.close device ∷ UsbCall.open2 device ∷ calls,
  refl,
  record {
    shown = is.shown;
    balanced = λ d. omega (arith, is.balanced d);
    in_time = ground (arith, is.balanced device, is.in_time);
  },
)
open_on-IsSound device result (Doing.opening e) dev calls is =
    (dev, Doing.opening e, calls, refl, is)
open_on-IsSound device result (Doing.reading e) dev calls is =
    (dev, Doing.reading e, calls, refl, is)

-- a call on the device in use, if there is one
on_published :
    (e : ℕ) (calls : List UsbCall)
    → ((d : ℕ) → closes_of d calls + uses d (Doing.reading e) ≡ opens_of d calls)
    → never_late calls ≡ true
    → ((closes_of e calls + 1 == opens_of e calls) && never_late calls) ≡ true
on_published e calls balanced late = ground (arith, balanced e, late)

cancelled-IsSound :
    (dev : RtlsdrAndroid) (doing : Doing) (calls : List UsbCall)
    → IsSound dev doing calls
    → IsSound dev doing (cancelled (published doing) calls)
cancelled-IsSound dev Doing.idle calls is = is
cancelled-IsSound dev (Doing.opening e) calls is = is
cancelled-IsSound dev (Doing.reading e) calls is = record {
  shown = is.shown;
  balanced = is.balanced;
  in_time = on_published e calls is.balanced is.in_time;
}

controlled-IsSound :
    (dev : RtlsdrAndroid) (doing : Doing) (calls : List UsbCall)
    → IsSound dev doing calls
    → IsSound dev doing (controlled (published doing) calls)
controlled-IsSound dev Doing.idle calls is = is
controlled-IsSound dev (Doing.opening e) calls is = is
controlled-IsSound dev (Doing.reading e) calls is = record {
  shown = is.shown;
  balanced = is.balanced;
  in_time = on_published e calls is.balanced is.in_time;
}

refused-IsSound :
    (stage : Stage) (device : ℕ) (dev dev' : RtlsdrAndroid) (calls : List UsbCall)
    → dev'.rtl_dev ≡ some device
    → dev.rtl_dev ≡ some device
    → IsSound dev (Doing.reading device) calls
    → IsSound dev' (Doing.reading device) (refused stage dev calls)
unfolding tcp_closed_callback
refused-IsSound stage device dev dev' calls e f is =
    elim stage as (λ k. IsSound dev' (Doing.reading device) (refused k dev calls)) [
      | Stage.socket_open ↦ same
      | Stage.uninitialized ↦ asked_to
      | Stage.initialized ↦ asked_to
      | Stage.client_open ↦ asked_to
      | Stage.client_open_started_async ↦ asked_to
      | Stage.client_serving ↦ asked_to
      | Stage.needs_stopping ↦ asked_to
    ]
  where
    same : IsSound dev' (Doing.reading device) calls
    same = record { shown = e; balanced = is.balanced; in_time = is.in_time }

    asked_to : IsSound dev' (Doing.reading device) (cancelled dev.rtl_dev calls)
    asked_to =
        subst (λ r. IsSound dev' (Doing.reading device) (cancelled r calls)) (sym f)
          (cancelled-IsSound dev' (Doing.reading device) calls same)

-- the session after an event that is no finalization
abbrev pub Next : Option Session → Type 0
Next o =
    (dev : RtlsdrAndroid) × (doing : Doing) × (calls : List UsbCall) × (o
      ≡ some (session dev doing calls))
    × IsSound dev doing calls

serve_on-IsSound :
    (doing : Doing) (dev : RtlsdrAndroid) (calls : List UsbCall)
    → IsSound dev doing calls
    → Next (some (serve_on doing dev calls))
unfolding publish
serve_on-IsSound Doing.idle dev calls is = (dev, Doing.idle, calls, refl, is)
serve_on-IsSound (Doing.reading e) dev calls is = (dev, Doing.reading e, calls, refl, is)
serve_on-IsSound (Doing.opening e) dev calls is = (
  _,
  Doing.reading e,
  _,
  refl,
  refused-IsSound (dev.tcpserv).state e (record dev { rtl_dev = some e }) _ calls refl refl
      (record { shown = refl; balanced = is.balanced; in_time = is.in_time }),
)

return_on-IsSound :
    (doing : Doing) (dev : RtlsdrAndroid) (calls : List UsbCall)
    → IsSound dev doing calls
    → Next (some (return_on doing dev calls))
unfolding withdraw
return_on-IsSound Doing.idle dev calls is = (dev, Doing.idle, calls, refl, is)
return_on-IsSound (Doing.opening e) dev calls is = (dev, Doing.opening e, calls, refl, is)
return_on-IsSound (Doing.reading e) dev calls is = (
  withdraw dev,
  Doing.idle,
  UsbCall.close e ∷ calls,
  refl,
  record {
    shown = refl;
    balanced = λ d. omega (arith, is.balanced d);
    in_time = on_published e calls is.balanced is.in_time;
  },
)

samples-rtl_dev :
    (buf : List ℕ) (has_buffer : Bool) (dev : RtlsdrAndroid)
    → (rtlsdr_callback buf has_buffer dev).rtl_dev ≡ dev.rtl_dev
unfolding rtlsdr_callback
samples-rtl_dev buf has_buffer dev = ground arith

abbrev pub is_final : Event → Bool
is_final Event.finalizes = true
is_final _ = false

pub happen-IsSound :
    (e : Event) (dev : RtlsdrAndroid) (doing : Doing) (calls : List UsbCall)
    → is_final e ≡ false
    → IsSound dev doing calls
    → Next (happen e (session dev doing calls))
unfolding happen close_server tcp_closed_callback command_callback
happen-IsSound (Event.opens device info socket bound listening) dev doing calls f is =
    let (dev', doing', calls', run, is') =
      open_on-IsSound device (sdrtcp_open_socket info socket bound listening dev.tcpserv) doing dev
        calls is in
    (dev', doing', calls', ap some run, is')
happen-IsSound Event.serves dev doing calls f is = serve_on-IsSound doing dev calls is
happen-IsSound Event.returns dev doing calls f is = return_on-IsSound doing dev calls is
happen-IsSound Event.server_closed dev doing calls f is = (
  dev,
  doing,
  cancelled (published doing) calls,
  ap (λ r. some (session dev doing (cancelled r calls))) is.shown,
  cancelled-IsSound dev doing calls is,
)
happen-IsSound Event.command dev doing calls f is = (
  dev,
  doing,
  controlled (published doing) calls,
  ap (λ r. some (session dev doing (controlled r calls))) is.shown,
  controlled-IsSound dev doing calls is,
)
happen-IsSound Event.stops dev doing calls f is =
    (close_server dev, doing, calls, refl, still refl is)
happen-IsSound (Event.samples buf has_buffer) dev doing calls f is = (
  rtlsdr_callback buf has_buffer dev,
  doing,
  calls,
  refl,
  still (samples-rtl_dev buf has_buffer dev) is,
)
happen-IsSound Event.finalizes dev doing calls f is = absurd (ground (arith, f))
