-- ===== src/SdrTcp/Transfer/Complete.antt =====
-- What the loop of `serveClient` sends to a client that keeps reading.
use android_rtlpower.Base.{
  drop-append, nil_if, ℕ, ◌+◌, ◌-◌, ◌%◌, ◌^◌, ◌≤◌, ◌<◌, ◌≡◌, refl, ap, ◌∙◌, Bool, true, false, ◌&&◌,
  Option, none, some, List, [], ◌∷◌, ◌++◌, length, take, drop, dec_lt, inl, inr, Bool-cases, ltb,
  if◌then◌else◌, arith, length-append, append-nil, append_assoc, take-append-drop, length-take,
  length-drop,
}
use Prim.Native.Nat.{min}
use native.Mathlib.Nat.{mod-eq_of_lt, add-mod_right}
use android_rtlpower.SdrTcp.{Stage}
use android_rtlpower.SdrTcp.Transfer.{
  is_serving, Round, goes, Sending, size_sub, size_add, give_up, send_some, send_loop, send_buffer,
}

pub min_lem : (n m : ℕ) → n ≤ m → min n m ≡ n
min_lem n m h = omega arith

pub size_sub_fits : (w x n : ℕ) → n ≤ x → x < 2 ^ w → size_sub w x (some n) ≡ x - n
size_sub_fits w x n h l =
    let whole : n % 2 ^ w ≡ n = mod-eq_of_lt (omega arith) in
    let back : x + (2 ^ w - n) ≡ (x - n) + 2 ^ w = omega arith in
    rw (whole, back, add-mod_right (x - n) (2 ^ w)) (mod-eq_of_lt (omega arith))

size_add_fits : (w x n : ℕ) → x + n < 2 ^ w → size_add w x (some n) ≡ x + n
size_add_fits w x n h = mod-eq_of_lt h

-- what the system promises of a round: the server is serving at each test, and a transfer that takes
-- place moves at least one byte and no more than asked for
pub record Delivers (r : Round ℕ) : Type 0 where
  pub still : r.still ≡ true
  pub asks : r.asks ≡ true
  pub acts : r.acts ≡ true
  pub gives : (left : ℕ) → 0 < left → (n : ℕ) × (r.answer left ≡ some n) × (0 < n) × (n ≤ left)

abbrev one_for : Bool → ℕ
one_for true = 1
one_for false = 0

-- the rounds in which the client is ready
unfoldable pub count_ready : List (Round ℕ) → ℕ
count_ready [] = 0
count_ready (r ∷ rs) = one_for r.ready + count_ready rs

ready_one : (r : Round ℕ) → r.ready ≡ true → one_for r.ready ≡ 1
ready_one r e = ap one_for e

not_ready : (r : Round ℕ) → r.ready ≡ false → one_for r.ready ≡ 0
not_ready r e = ap one_for e

pub data AllDeliver : List (Round ℕ) → Type 0 where
  none_left : AllDeliver []
  one_more : {r : Round ℕ} {rs : List (Round ℕ)} → Delivers r → AllDeliver rs → AllDeliver (r ∷ rs)

module _ (w : ℕ) (wire whole : List ℕ) (fits : length whole < 2 ^ w) where
  -- the loop has sent `sent` and has `rest` to send
  abbrev progress : (sent rest : List ℕ) → Option ℕ → Sending
  progress sent rest last = record {
    index = length sent;
    bytessent = last;
    bytesleft = length rest;
    stage = Stage.client_serving;
    wire = wire ++ sent;
  }

  send_some-progress :
      (r : Round ℕ) (sent rest : List ℕ) (last : Option ℕ) (n : ℕ)
      → Delivers r
      → r.ready ≡ true
      → whole ≡ sent ++ rest
      → r.answer (length rest) ≡ some n
      → n ≤ length rest
      → send_some w whole r (progress sent rest last)
        ≡ progress (sent ++ take n rest) (drop n rest) (some n)
  unfolding send_some
  send_some-progress r sent rest last n d ready e ans h =
      let go : goes r ≡ true = ground (arith, d.asks, d.acts, ready) in
      let at_rest : drop (length sent) whole ≡ rest =
        ap (drop (length sent)) e ∙ drop-append sent rest in
      let long : length whole ≡ length sent + length rest = ap length e ∙ length-append sent rest in
      rw
        (
          go,
          ans,
          at_rest,
          size_add_fits w (length sent) n (omega arith),
          size_sub_fits w (length rest) n h (omega arith),
          length-append sent (take n rest),
          length-take n rest,
          length-drop n rest,
          append_assoc wire sent (take n rest),
          min_lem n (length rest) h,
        )
        refl

  -- a round in which the client is not ready, once something has been sent
  idle :
      (r : Round ℕ) (sent rest : List ℕ) (k : ℕ)
      → r.ready ≡ false
      → give_up r.checks (send_some w whole r (progress sent rest (some k)))
        ≡ progress sent rest (some k)
  unfolding send_some give_up
  idle r sent rest k ready = ground (arith, ready)

  round-progress :
      (r : Round ℕ) (sent rest : List ℕ) (last : Option ℕ)
      → Delivers r
      → r.ready ≡ true
      → whole ≡ sent ++ rest
      → 0 < length rest
      → (n : ℕ) × (0 < n)
        × (n ≤ length rest)
        × (give_up r.checks (send_some w whole r (progress sent rest last))
            ≡ progress (sent ++ take n rest) (drop n rest) (some n))
  unfolding give_up
  round-progress r sent rest last d ready e h =
      let (n, ans, some_bytes, bound) = d.gives (length rest) h in
      (
        n,
        some_bytes,
        bound,
        ap (give_up r.checks) (send_some-progress r sent rest last n d ready e ans bound),
      )

  loop_step :
      (r : Round ℕ) (rs : List (Round ℕ)) (s : Sending)
      → Delivers r
      → 0 < s.bytesleft
      → s.stage ≡ Stage.client_serving
      → send_loop w whole (r ∷ rs) s
        ≡ send_loop w whole rs (give_up r.checks (send_some w whole r s))
  unfolding send_loop
  loop_step r rs s d h e =
      let on : (ltb 0 s.bytesleft && r.still && is_serving s.stage) ≡ true =
        ground (arith, h, d.still, ap is_serving e) in
      ap (λ b. if b then send_loop w whole rs (give_up r.checks (send_some w whole r s)) else s) on

  loop_done : (rs : List (Round ℕ)) (s : Sending) → s.bytesleft ≡ 0 → send_loop w whole rs s ≡ s
  unfolding send_loop
  loop_done [] s e = refl
  loop_done (r ∷ rs) s e =
      let off : (ltb 0 s.bytesleft && r.still && is_serving s.stage) ≡ false = ground (arith, e) in
      ap (λ b. if b then send_loop w whole rs (give_up r.checks (send_some w whole r s)) else s) off

  Ends : Sending → Type 0
  Ends s = (last : Option ℕ) × (s ≡ progress whole [] last)

  finished :
      (rs : List (Round ℕ)) (sent rest : List ℕ) (last : Option ℕ)
      → whole ≡ sent ++ rest
      → length rest ≡ 0
      → Ends (send_loop w whole rs (progress sent rest last))
  unfolding Ends
  finished rs sent rest last e z =
      let gone : rest ≡ [] = nil_if rest z in
      let all : whole ≡ sent = rw gone at e ∙ append-nil sent in
      (last, loop_done rs (progress sent rest last) z ∙ rw (gone, all) refl)

  again :
      (sent rest : List ℕ) (n : ℕ)
      → whole ≡ sent ++ rest
      → whole ≡ (sent ++ take n rest) ++ drop n rest
  again sent rest n e =
      rw (append_assoc sent (take n rest) (drop n rest), take-append-drop n rest) e

  send_loop-Ends :
      (rs : List (Round ℕ)) (sent rest : List ℕ) (k : ℕ)
      → AllDeliver rs
      → length rest ≤ count_ready rs
      → whole ≡ sent ++ rest
      → Ends (send_loop w whole rs (progress sent rest (some k)))
  unfolding count_ready
  send_loop-Ends [] sent rest k none_left enough e = finished [] sent rest (some k) e (omega arith)
  send_loop-Ends (r ∷ rs) sent rest k (one_more d ds) enough e = elim (dec_lt 0 (length rest)) [
    | no sent_all ↦ finished (r ∷ rs) sent rest (some k) e (omega arith)
    | yes more ↦ elim (Bool-cases r.ready) [
      | inl ready ↦
          let (n, some_bytes, bound, next) = round-progress r sent rest (some k) d ready e more in
          rw (loop_step r rs (progress sent rest (some k)) d more refl, next)
            (send_loop-Ends rs (sent ++ take n rest) (drop n rest) n ds
              (omega (arith, ready_one r ready, enough, length-drop n rest)) (again sent rest n e))
      | inr waits ↦
          rw (loop_step r rs (progress sent rest (some k)) d more refl, idle r sent rest k waits)
            (send_loop-Ends rs sent rest k ds (omega (arith, not_ready r waits, enough)) e)
    ]
  ]

  first_lem :
      (r : Round ℕ) (rs : List (Round ℕ))
      → AllDeliver (r ∷ rs)
      → r.ready ≡ true
      → length whole ≤ count_ready (r ∷ rs)
      → Ends (send_loop w whole (r ∷ rs) (progress [] whole none))
  unfolding count_ready
  first_lem r rs (one_more d ds) ready enough = elim (dec_lt 0 (length whole)) [
    | no sent_all ↦ finished (r ∷ rs) [] whole none refl (omega arith)
    | yes more ↦
        let (n, some_bytes, bound, next) = round-progress r [] whole none d ready refl more in
        rw (loop_step r rs (progress [] whole none) d more refl, next)
          (send_loop-Ends rs (take n whole) (drop n whole) n ds
            (omega (arith, ready_one r ready, enough, length-drop n whole)) (again [] whole n refl))
  ]

  buffer_lem :
      (rs : List (Round ℕ))
      → send_buffer w whole rs wire ≡ send_loop w whole rs (progress [] whole none)
  unfolding send_buffer
  buffer_lem rs = rw (append-nil wire) refl

  -- The loop of `serveClient` on a buffer that fits in `size_t`: if the server is serving throughout,
  -- each `send` takes at least a byte and no more than asked for, the client is ready in the first
  -- round, and ready in as many rounds as there are bytes, then the loop ends with nothing left, and
  -- `send` has taken exactly the buffer's bytes, in order; the server is still serving. The client
  -- may make `select` time out in any round but the first.
  pub send_buffer-all :
      (r : Round ℕ) (rs : List (Round ℕ))
      → AllDeliver (r ∷ rs)
      → r.ready ≡ true
      → length whole ≤ count_ready (r ∷ rs)
      → ((send_buffer w whole (r ∷ rs) wire).bytesleft ≡ 0)
        × ((send_buffer w whole (r ∷ rs) wire).wire ≡ wire ++ whole)
        × ((send_buffer w whole (r ∷ rs) wire).stage ≡ Stage.client_serving)
  unfolding Ends
  send_buffer-all r rs ds ready enough =
      let (last, e) = first_lem r rs ds ready enough in
      let whole_run = buffer_lem (r ∷ rs) ∙ e in
      (
        ap (λ (s : Sending). s.bytesleft) whole_run,
        ap (λ (s : Sending). s.wire) whole_run,
        ap (λ (s : Sending). s.stage) whole_run,
      )
