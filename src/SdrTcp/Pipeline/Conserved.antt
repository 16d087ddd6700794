-- ===== src/SdrTcp/Pipeline/Conserved.antt =====
-- No sample is lost, changed or overtaken between `sdrtcp_feed` and the client.
use android_rtlpower.Base.{
  ℕ, ◌≡◌, refl, true, none, List, [], ◌++◌, map, ◌≤◌, length, length-append, ap, arith,
}
use android_rtlpower.WorkPool.{Pool}
use android_rtlpower.WorkPool.Invariant.{IsPool, le_total}
use android_rtlpower.WorkPool.Invariant.Freeing.{no_cells}
use android_rtlpower.ExtBuffer.{Memory}
use android_rtlpower.SdrTcp.Pipeline.{
  bytes_of, Feeding, Serving, Line, Step, Run, reuses, makes, fills, feeds, serves, sends, returns,
  start, further,
}
use android_rtlpower.SdrTcp.Pipeline.Packets.{
  none_queued, concat, IsLine, ServerHas, server_holds, feeder_holds, Queued-length,
}
use android_rtlpower.Queue.{Ptr}
use android_rtlpower.SdrTcp.Pipeline.Fed.{reuses-IsLine, makes-IsLine, fills-IsLine, feeds-IsLine}
use android_rtlpower.SdrTcp.Pipeline.Served.{serves-IsLine, sends-IsLine, returns-IsLine}

current-length :
    (p : Pool) (y : Serving) (current : List (List ℕ))
    → ServerHas p y current
    → length current ≤ length (server_holds y)
current-length p Serving.idle current e = omega (arith, ap length e)
current-length p (Serving.unsent v) current (packet, at, e) = omega (arith, ap length e)
current-length p (Serving.sent v) current e = omega (arith, ap length e)

-- a line that has been fed nothing
abbrev pub at_rest : Pool → Line
at_rest p = record { pool = p; feeding = Feeding.idle; serving = Serving.idle; wire = []; fed = [] }

pub at_rest-IsLine :
    (p : Pool) (free : ℕ)
    → IsPool p no_cells []
    → p.valid ≡ true
    → p.max_ids ≡ 2
    → ((a : Ptr) → free ≤ a → p.heap a ≡ none)
    → IsLine (at_rest p)
unfolding concat
at_rest-IsLine p free is ok two unused = record {
  cells = no_cells;
  pool_is = is;
  valid = ok;
  two = two;
  free = free;
  unused = unused;
  packets = [];
  current = [];
  waiting = [];
  wire_is = refl;
  order = refl;
  queue = none_queued;
  feeder = tt;
  server = refl;
}

module _ (m : Memory) (w : ℕ) where
  Step-IsLine : (f g : Line) → IsLine f → Step m w f g → IsLine g
  Step-IsLine f g is (reuses v q e run nn) = reuses-IsLine m f is v q e run nn
  Step-IsLine f g is (makes new q e room nn fresh run) =
      makes-IsLine m f is new q e room nn fresh run
  Step-IsLine f g is (fills v buf q e small run) = fills-IsLine m f is v buf q e small run
  Step-IsLine f g is (feeds new_el v buf q e nn fresh run) =
      feeds-IsLine m f is new_el v buf q e nn fresh run
  Step-IsLine f g is (serves v q e run nn) = (serves-IsLine m w f is v q e run nn).0
  Step-IsLine f g is (sends v bytes r rs e at fits deliver ready enough) =
      (sends-IsLine m w f is v bytes r rs e at fits deliver ready enough).0
  Step-IsLine f g is (returns new_el v q e nn fresh run) =
      (returns-IsLine m w f is new_el v q e nn fresh run).0

  pub run-IsLine : (f g : Line) → IsLine f → Run m w f g → IsLine g
  run-IsLine f g is start = is
  run-IsLine f g is (further {g = h} run step) = Step-IsLine h g (run-IsLine f h is run) step

  -- From a valid pool of two stages that holds no buffer, in a finite memory, after any steps of the two threads in any
  -- order, the bytes that `send` has taken are those of the packets fed first, unchanged and in the
  -- order in which they were fed; the packets that have been fed and not sent are no more than the
  -- pool has buffers at most. Each packet is shorter than `2 ^ 31` elements, and each packet that is
  -- sent is sent to its end.
  pub Run-concat :
      (p : Pool) (free : ℕ) (f : Line)
      → IsPool p no_cells []
      → p.valid ≡ true
      → p.max_ids ≡ 2
      → ((a : Ptr) → free ≤ a → p.heap a ≡ none)
      → Run m w (at_rest p) f
      → (packets unsent : List (List ℕ)) × (f.wire ≡ concat packets)
        × (map bytes_of f.fed ≡ packets ++ unsent)
        × (length unsent ≤ f.pool.max_elements)
  Run-concat p free f is ok two unused run =
      let line = run-IsLine (at_rest p) f (at_rest-IsLine p free is ok two unused) run in
      (
        line.packets,
        line.current ++ line.waiting,
        line.wire_is,
        line.order,
        omega (
          arith,
          length-append line.current line.waiting,
          current-length f.pool f.serving line.current line.server,
          length-append (feeder_holds f.feeding) (server_holds f.serving),
          Queued-length line.queue,
          line.pool_is.counted,
          line.pool_is.bounded,
          le_total (length {A = Ptr × Ptr}) f.pool.max_ids line.cells 1 (omega (arith, line.two)),
        ),
      )
