-- ===== src/Device/Handle.antt =====
-- `rtlsdr_android_t` of rtlsdrdevice.c, which Java holds by its address, and the functions that work
-- on it: `initialize`, `deInit`, `close`, the callbacks of the driver and of the server, and the ends
-- of `openAsync` between which `rtl_dev` is set. The calls of the driver go to a log, the last one
-- first. Handles of the driver are numbers.
pub mod Lifetime
pub mod Sound
use android_rtlpower.Base.{
  ℕ, zero, suc, ◌+◌, ◌*◌, ◌≡◌, Bool, true, false, not, ◌&&◌, Option, none, some, List, [], ◌∷◌,
  ◌==◌, if◌then◌else◌,
}
use android_rtlpower.Base.Int.{ℤ}
use android_rtlpower.Device.{supported_commands}
use android_rtlpower.SdrTcp.{
  Stage, SdrTcp, sdrtcp_init, sdrtcp_open_socket, sdrtcp_feed, sdrtcp_serve_client_async,
  sdrtcp_stop_serving_client,
}

pub record RtlsdrAndroid : Type 0 where
  pub tcpserv : SdrTcp
  -- NULL is `none`
  pub rtl_dev : Option ℕ

-- `rtlsdr_open2`, `rtlsdr_cancel_async`, `rtlsdr_close`, and the calls that `tcpCommandCallback` makes
-- for one command, which Device models
pub data UsbCall : Type 0 where
  open2 cancel_async close control : ℕ → UsbCall

-- `Java_…_initialize`
pub initialize : RtlsdrAndroid
initialize = record { tcpserv = sdrtcp_init; rtl_dev = none }

abbrev pub cancelled : Option ℕ → List UsbCall → List UsbCall
cancelled none calls = calls
cancelled (some dev) calls = UsbCall.cancel_async dev ∷ calls

-- `tcpClosedCallback`
pub tcp_closed_callback : RtlsdrAndroid → List UsbCall → List UsbCall
tcp_closed_callback dev calls = cancelled dev.rtl_dev calls

-- `buf` as `len / 2` elements of two bytes, on a machine that is little-endian
pub elements : (buf : List ℕ) → List ℕ
elements [] = []
elements (a ∷ []) = []
elements (a ∷ b ∷ buf) = (a + 256 * b) ∷ elements buf

-- `rtlsdr_callback`; the result of the feed is not looked at
pub rtlsdr_callback : (buf : List ℕ) (has_buffer : Bool) → RtlsdrAndroid → RtlsdrAndroid
unfolding elements
rtlsdr_callback buf has_buffer dev = elim dev.rtl_dev [
  | none ↦ dev
  | some _ ↦ record dev { tcpserv = (sdrtcp_feed (elements buf) has_buffer dev.tcpserv).1 }
]

-- `Java_…_close__J`
pub close_server : RtlsdrAndroid → RtlsdrAndroid
close_server dev = record dev { tcpserv = sdrtcp_stop_serving_client dev.tcpserv }

abbrev pub closed : Option ℕ → List UsbCall → List UsbCall
closed none calls = calls
closed (some dev) calls = UsbCall.close dev ∷ calls

-- `Java_…_deInit`, before `free`; `sdrtcp_free` destroys a mutex
pub de_init : RtlsdrAndroid → List UsbCall → List UsbCall
de_init dev calls = closed dev.rtl_dev calls

-- the call of `closedcb` in `sdrtcp_serve_client_async`
abbrev pub refused : Stage → RtlsdrAndroid → List UsbCall → List UsbCall
refused Stage.socket_open dev calls = calls
refused _ dev calls = tcp_closed_callback dev calls

-- `openAsync`, once the server's socket is open: `rtl_dev` is set, then the server is started
pub publish : (device : ℕ) → RtlsdrAndroid → List UsbCall → RtlsdrAndroid × List UsbCall
unfolding tcp_closed_callback
publish device dev calls =
    let set = record dev { rtl_dev = some device } in
    (
      record set { tcpserv = sdrtcp_serve_client_async dev.tcpserv },
      refused (dev.tcpserv).state set calls,
    )

abbrev pub controlled : Option ℕ → List UsbCall → List UsbCall
controlled none calls = calls
controlled (some dev) calls = UsbCall.control dev ∷ calls

-- `tcpCommandCallback`, as far as this object goes
pub command_callback : RtlsdrAndroid → List UsbCall → List UsbCall
command_callback dev calls = controlled dev.rtl_dev calls

-- `openAsync`, once `rtlsdr_read_async` has returned
pub withdraw : RtlsdrAndroid → RtlsdrAndroid
withdraw dev = record { tcpserv = sdrtcp_stop_serving_client dev.tcpserv; rtl_dev = none }

-- `getSupportedCommands`; NULL where Java gives no array
pub get_supported_commands : (has_array : Bool) → Option (List ℕ)
get_supported_commands has_array = if has_array then some supported_commands else none

-- where `openAsync` is: not running, its device open, or in `rtlsdr_read_async`
pub data Doing : Type 0 where
  idle : Doing
  opening reading : ℕ → Doing

-- The object, `none` once it is freed; what `openAsync` does; and the calls.
pub record Session : Type 0 where
  pub object : Option RtlsdrAndroid
  pub doing : Doing
  pub calls : List UsbCall

-- what the threads of Java, of the driver and of the server do: `openAsync` opens a device and asks
-- for the server's socket, sets `rtl_dev` and starts the server, and returns from
-- `rtlsdr_read_async`; the callbacks of the server and of the driver; `close` and `deInit`
pub data Event : Type 0 where
  opens : (device : ℕ) → (info : List ℕ) → (socket : ℤ) → (bound listening : Bool) → Event
  serves returns server_closed command stops finalizes : Event
  samples : List ℕ → Bool → Event

abbrev pub on_object : Session → (RtlsdrAndroid → Option Session) → Option Session
on_object s k = elim s.object [ none ↦ none | some dev ↦ k dev ]

abbrev pub session : RtlsdrAndroid → Doing → List UsbCall → Session
session dev doing calls = record { object = some dev; doing = doing; calls = calls }

-- what `sdrtcp_open_socket` gave; without a socket the device is closed
abbrev pub asked : (device : ℕ) → Bool × SdrTcp → RtlsdrAndroid → List UsbCall → Session
asked device (true, serv) dev calls =
    session (record dev { tcpserv = serv }) (Doing.opening device) calls
asked device (false, serv) dev calls =
    session (record dev { tcpserv = serv }) Doing.idle (UsbCall.close device ∷ calls)

-- `openAsync` does not run twice at a time
abbrev pub open_on : (device : ℕ) → Bool × SdrTcp → Doing → RtlsdrAndroid → List UsbCall → Session
open_on device result Doing.idle dev calls = asked device result dev (UsbCall.open2 device ∷ calls)
open_on device result doing dev calls = session dev doing calls

abbrev pub serve_on : Doing → RtlsdrAndroid → List UsbCall → Session
serve_on (Doing.opening device) dev calls =
    let served = publish device dev calls in session served.0 (Doing.reading device) served.1
serve_on doing dev calls = session dev doing calls

abbrev pub return_on : Doing → RtlsdrAndroid → List UsbCall → Session
return_on (Doing.reading device) dev calls =
    session (withdraw dev) Doing.idle (UsbCall.close device ∷ calls)
return_on doing dev calls = session dev doing calls

-- Java does not finalize an object whose `openAsync` runs
abbrev pub finalize_on : Doing → RtlsdrAndroid → List UsbCall → Session
finalize_on Doing.idle dev calls = record {
  object = none;
  doing = Doing.idle;
  calls = de_init dev calls;
}
finalize_on doing dev calls = session dev doing calls

-- One event; what touches a freed object is a fault, `none`, and what cannot come now is skipped.
pub happen : Event → Session → Option Session
unfolding publish withdraw close_server rtlsdr_callback tcp_closed_callback command_callback de_init
happen (Event.opens device info socket bound listening) s = on_object s λ dev.
    let result = sdrtcp_open_socket info socket bound listening dev.tcpserv in
    some (open_on device result s.doing dev s.calls)
happen Event.serves s = on_object s λ dev. some (serve_on s.doing dev s.calls)
happen Event.returns s = on_object s λ dev. some (return_on s.doing dev s.calls)
happen Event.server_closed s =
    on_object s λ dev. some (session dev s.doing (tcp_closed_callback dev s.calls))
happen Event.command s =
    on_object s λ dev. some (session dev s.doing (command_callback dev s.calls))
happen Event.stops s = on_object s λ dev. some (session (close_server dev) s.doing s.calls)
happen Event.finalizes s = on_object s λ dev. some (finalize_on s.doing dev s.calls)
happen (Event.samples buf has_buffer) s =
    on_object s λ dev. some (session (rtlsdr_callback buf has_buffer dev) s.doing s.calls)

abbrev pub happen_all_from : (Session → Option Session) → Option Session → Option Session
happen_all_from k none = none
happen_all_from k (some s) = k s

pub happen_all : List Event → Session → Option Session
unfolding happen
happen_all [] s = some s
happen_all (e ∷ es) s = happen_all_from (happen_all es) (happen e s)

-- an object that Java has just made
abbrev pub fresh_session : Session
fresh_session = session initialize Doing.idle []
