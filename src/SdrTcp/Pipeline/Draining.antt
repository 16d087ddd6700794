-- ===== src/SdrTcp/Pipeline/Draining.antt =====
-- The thread that serves can always go on: what has been fed reaches a client that keeps reading.
use android_rtlpower.Base.{
  ℕ, zero, suc, ◌^◌, ◌≤◌, ◌<◌, ◌≡◌, ◌≢◌, refl, sym, ap, ◌∙◌, true, none, some, List, [], ◌∷◌, ◌++◌,
  map, append-nil, length, replicate, take, drop, arith,
}
use mathlib.Core.Path.{subst, ap₂}
use android_rtlpower.Queue.{Ptr, null}
use android_rtlpower.ExtBuffer.{Memory}
use android_rtlpower.WorkPool.{Pool}
use android_rtlpower.WorkPool.Invariant.{IsPool}
use android_rtlpower.WorkPool.Invariant.Freeing.{no_cells}
use android_rtlpower.SdrTcp.Transfer.{Round}
use android_rtlpower.SdrTcp.Transfer.Complete.{
  Delivers, AllDeliver, none_left, one_more, count_ready,
}
use android_rtlpower.SdrTcp.Pipeline.{
  bytes_of, Serving, Line, Run, serves, sends, returns, start, further,
}
use android_rtlpower.SdrTcp.Pipeline.Packets.{ServerHas, concat, IsLine}
use android_rtlpower.SdrTcp.Pipeline.Served.{
  serves-IsLine, serves-runs, sends-IsLine, returns-IsLine, returns-runs,
}
use android_rtlpower.SdrTcp.Pipeline.Conserved.{at_rest, at_rest-IsLine, run-IsLine}

-- a client that is ready at once and takes all it is given
abbrev pub eager : Round ℕ
eager = record {
  still = true;
  asks = true;
  ready = true;
  acts = true;
  checks = true;
  answer = λ left. some left;
}

eager-Delivers : Delivers eager
eager-Delivers = record {
  still = refl;
  asks = refl;
  acts = refl;
  gives = λ left h. (left, refl, h, omega arith);
}

eager-AllDeliver : (n : ℕ) → AllDeliver (replicate n eager)
eager-AllDeliver zero = none_left
eager-AllDeliver (suc n) = one_more eager-Delivers (eager-AllDeliver n)

eager-count_ready : (n : ℕ) → count_ready (replicate n eager) ≡ n
unfolding count_ready
eager-count_ready zero = refl
eager-count_ready (suc n) = omega (arith, eager-count_ready n)

-- Each packet is shorter than the width of `size_t` allows.
unfoldable pub AllFit : (w : ℕ) → List (List ℕ) → Type 0
AllFit w [] = Unit
AllFit w (packet ∷ packets) = (length packet < 2 ^ w) × AllFit w packets

AllFit-behind : (w : ℕ) (xs ys : List (List ℕ)) → AllFit w (xs ++ ys) → AllFit w ys
unfolding AllFit
AllFit-behind w [] ys fit = fit
AllFit-behind w (x ∷ xs) ys fit = AllFit-behind w xs ys fit.1

AllFit-front : (w : ℕ) (xs ys : List (List ℕ)) → AllFit w (xs ++ ys) → AllFit w xs
unfolding AllFit
AllFit-front w [] ys fit = tt
AllFit-front w (x ∷ xs) ys fit = (fit.0, AllFit-front w xs ys fit.1)

-- where nothing waits and nothing is in hand, all has been sent
all_out :
    (g : Line) (line : IsLine g)
    → line.waiting ≡ []
    → g.serving ≡ Serving.idle
    → g.wire ≡ concat (map bytes_of g.fed)
all_out g line none_waits idle =
    let no_current : line.current ≡ [] =
      subst (λ y. ServerHas g.pool y line.current) idle line.server in
    line.wire_is
    ∙ ap concat (
        sym (
          line.order
          ∙ ap₂ (λ x y. line.packets ++ (x ++ y)) no_current none_waits
          ∙ append-nil line.packets))

module _ (m : Memory) (w : ℕ) where
  run-append : {f g : Line} (h : Line) → Run m w f g → Run m w g h → Run m w f h
  run-append h first start = first
  run-append h first (further {g = k} rest step) = further (run-append k first rest) step

  -- a line after some steps, with the serving thread idle and the packets that wait
  record Reaches (f : Line) (waiting : List (List ℕ)) : Type 0 where
    reached : Line
    run : Run m w f reached
    line : IsLine reached
    idle : reached.serving ≡ Serving.idle
    waits : line.waiting ≡ waiting
    same_fed : reached.fed ≡ f.fed

  gives_back :
      (f : Line) (is : IsLine f) (v : Ptr) → f.serving ≡ Serving.sent v → Reaches f is.waiting
  gives_back f is v e =
      let nn : suc is.free ≢ null = omega arith in
      let fresh = is.unused (suc is.free) (omega arith) in
      let (q, run) = returns-runs m w f is (suc is.free) v e nn fresh in
      let (line, same) = returns-IsLine m w f is (suc is.free) v q e nn fresh run in
      record {
        reached = record f { pool = q; serving = Serving.idle };
        run = further start (returns (suc is.free) v q e nn fresh run);
        line = line;
        idle = refl;
        waits = same;
        same_fed = refl;
      }

  sends_all :
      (f : Line) (is : IsLine f) (v : Ptr)
      → f.serving ≡ Serving.unsent v
      → AllFit w is.current
      → Reaches f is.waiting
  unfolding AllFit count_ready
  sends_all f is v e fit =
      let (bytes, at, one) = subst (λ y. ServerHas f.pool y is.current) e is.server in
      let small = subst (AllFit w) one fit in
      let rs = replicate (length bytes) eager in
      let deliver = one_more eager-Delivers (eager-AllDeliver (length bytes)) in
      let enough : length bytes ≤ count_ready (eager ∷ rs) =
        omega (arith, eager-count_ready (length bytes)) in
      let (line, same) = sends-IsLine m w f is v bytes eager rs e at small.0 deliver refl enough in
      let after = gives_back _ line v refl in
      record {
        reached = after.reached;
        run =
            run-append after.reached
              (further start (sends v bytes eager rs e at small.0 deliver refl enough)) after.run;
        line = after.line;
        idle = after.idle;
        waits = after.waits ∙ same;
        same_fed = after.same_fed;
      }

  drains :
      (waiting : List (List ℕ)) (f : Line) (is : IsLine f)
      → is.waiting ≡ waiting
      → f.serving ≡ Serving.idle
      → AllFit w waiting
      → Reaches f []
  unfolding AllFit
  drains [] f is waits e fit = record {
    reached = f;
    run = start;
    line = is;
    idle = e;
    waits = waits;
    same_fed = refl;
  }
  drains (packet ∷ rest) f is waits e (small, fit) =
      let (v, q, run, nn) = serves-runs m w f is packet rest e waits in
      let (line, packet', split, taken) = serves-IsLine m w f is v q e run nn in
      let both = sym split ∙ waits in
      let one =
        sends_all _ line v refl
          (subst (AllFit w) (ap (take 1) (sym both) ∙ sym taken) (small, tt)) in
      let more = drains rest one.reached one.line (one.waits ∙ ap (drop 1) both) one.idle fit in
      record {
        reached = more.reached;
        run =
            run-append more.reached
              (run-append one.reached (further start (serves v q e run nn)) one.run) more.run;
        line = more.line;
        idle = more.idle;
        waits = more.waits;
        same_fed = more.same_fed ∙ one.same_fed;
      }

  -- The serving thread ends what it is at.
  settles :
      (f : Line) (is : IsLine f) (y : Serving)
      → f.serving ≡ y
      → AllFit w is.current
      → Reaches f is.waiting
  settles f is Serving.idle e fit = record {
    reached = f;
    run = start;
    line = is;
    idle = e;
    waits = refl;
    same_fed = refl;
  }
  settles f is (Serving.unsent v) e fit = sends_all f is v e fit
  settles f is (Serving.sent v) e fit = gives_back f is v e

  -- Whatever the two threads have done from a valid pool of two stages that holds no buffer, in a
  -- finite memory, they can go on to a state in which `send` has taken all that was fed, in order,
  -- and nothing more has been fed, given that each packet that was fed is shorter than the width of
  -- `size_t` allows.
  pub Run-drains :
      (p : Pool) (free : ℕ) (f : Line)
      → IsPool p no_cells []
      → p.valid ≡ true
      → p.max_ids ≡ 2
      → ((a : Ptr) → free ≤ a → p.heap a ≡ none)
      → Run m w (at_rest p) f
      → AllFit w (map bytes_of f.fed)
      → (g : Line) × Run m w f g × (g.fed ≡ f.fed) × (g.wire ≡ concat (map bytes_of f.fed))
  Run-drains p free f is ok two unused run fit =
      let line = run-IsLine m w (at_rest p) f (at_rest-IsLine p free is ok two unused) run in
      let behind =
        AllFit-behind w line.packets (line.current ++ line.waiting)
          (subst (AllFit w) line.order fit) in
      let idle = settles f line f.serving refl (AllFit-front w line.current line.waiting behind) in
      let done =
        drains line.waiting idle.reached idle.line idle.waits idle.idle
          (AllFit-behind w line.current line.waiting behind) in
      (
        done.reached,
        run-append done.reached idle.run done.run,
        done.same_fed ∙ idle.same_fed,
        all_out done.reached done.line done.waits done.idle
            ∙ ap (λ x. concat (map bytes_of x)) (done.same_fed ∙ idle.same_fed),
      )
