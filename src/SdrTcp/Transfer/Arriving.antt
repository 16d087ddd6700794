-- ===== src/SdrTcp/Transfer/Arriving.antt =====
-- A command that a client sends arrives at `commandListener`, in whatever pieces.
use android_rtlpower.Base.{
  take-append, nil_if, ℕ, ◌+◌, ◌-◌, ◌/◌, ◌%◌, ◌^◌, ◌≤◌, ◌<◌, ◌≡◌, refl, sym, ap, ◌∙◌, true, false,
  ◌&&◌, some, List, [], ◌∷◌, ◌++◌, length, drop, dec_lt, ltb, if◌then◌else◌, arith, length-append,
  append-nil, append_assoc, length-drop,
}
use native.Mathlib.Nat.{zero-add, suc-add}
use android_rtlpower.SdrTcp.{Stage}
use android_rtlpower.SdrTcp.Transfer.{
  is_serving, Round, goes, Receiving, Command, command_size, put_bytes, receive_some, receive_loop,
  read_command, spent, dispatch, listen,
}
use android_rtlpower.SdrTcp.Transfer.Complete.{size_sub_fits}

-- what a client sends for a command: a byte and a big-endian number
unfoldable pub encode : Command → List ℕ
encode c =
    c.command
    ∷ c.parameter / 0x100_0000
    ∷ c.parameter / 0x1_0000 % 256
    ∷ c.parameter / 256 % 256
    ∷ c.parameter % 256
    ∷ []

-- The server is serving at each test of the round.
pub record Serves (r : Round (List ℕ)) : Type 0 where
  pub still : r.still ≡ true
  pub asks : r.asks ≡ true
  pub acts : r.acts ≡ true

-- In these rounds `recv` returns the bytes piece by piece, and nothing may be there in between.
pub data Arrives : List (Round (List ℕ)) → List ℕ → Type 0 where
  all_there : {rs : List (Round (List ℕ))} → Arrives rs []
  nothing_yet :
      {r : Round (List ℕ)} {rs : List (Round (List ℕ))} {bytes : List ℕ}
      → Serves r
      → r.ready ≡ false
      → Arrives rs bytes
      → Arrives (r ∷ rs) bytes
  piece :
      {r : Round (List ℕ)} {rs : List (Round (List ℕ))} (p bytes : List ℕ)
      → Serves r
      → r.ready ≡ true
      → r.answer (length (p ++ bytes)) ≡ some p
      → Arrives rs bytes
      → Arrives (r ∷ rs) (p ++ bytes)

read-encode : (c : Command) → c.parameter < 0x1_0000_0000 → read_command (encode c) ≡ some c
unfolding read_command encode
read-encode c h = ap (λ n. some (record { command = c.command; parameter = n })) (omega arith)

drop-append_more : (a b : List ℕ) (n : ℕ) → drop (length a + n) (a ++ b) ≡ drop n b
drop-append_more [] b n = rw (zero-add n) refl
drop-append_more (x ∷ a) b n = rw (suc-add (length a) n) (drop-append_more a b n)

put_bytes-append :
    (got p tail : List ℕ)
    → put_bytes (length got) p (got ++ tail) ≡ (got ++ p) ++ drop (length p) tail
put_bytes-append got p tail =
    rw
      (
        take-append got tail,
        drop-append_more got tail (length p),
        append_assoc got p (drop (length p) tail),
      )
      refl

module _ (w : ℕ) (fits : command_size < 2 ^ w) where
  -- `got` has been received, and the bytes of `tail` are yet to be overwritten
  abbrev partway : (got tail : List ℕ) → Receiving
  partway got tail = record { cmd = got ++ tail; left = length tail; stage = Stage.client_serving }

  loop_stops : (rs : List (Round (List ℕ))) (s : Receiving) → s.left ≡ 0 → receive_loop w rs s ≡ s
  unfolding receive_loop
  loop_stops [] s e = refl
  loop_stops (r ∷ rs) s e =
      let off : (ltb 0 s.left && r.still && is_serving s.stage) ≡ false = ground (arith, e) in
      ap (λ b. if b then receive_loop w rs (receive_some w r s) else s) off

  pub loop_goes_on :
      (r : Round (List ℕ)) (rs : List (Round (List ℕ))) (s : Receiving)
      → Serves r
      → 0 < s.left
      → s.stage ≡ Stage.client_serving
      → receive_loop w (r ∷ rs) s ≡ receive_loop w rs (receive_some w r s)
  unfolding receive_loop
  loop_goes_on r rs s d h e =
      let on : (ltb 0 s.left && r.still && is_serving s.stage) ≡ true =
        ground (arith, h, d.still, ap is_serving e) in
      ap (λ b. if b then receive_loop w rs (receive_some w r s) else s) on

  receive_some-partway :
      (r : Round (List ℕ)) (got tail p : List ℕ)
      → Serves r
      → r.ready ≡ true
      → r.answer (length tail) ≡ some p
      → length p ≤ length tail
      → length got + length tail ≡ command_size
      → receive_some w r (partway got tail) ≡ partway (got ++ p) (drop (length p) tail)
  unfolding receive_some
  receive_some-partway r got tail p d ready ans h all =
      let go : goes r ≡ true = ground (arith, d.asks, d.acts, ready) in
      let behind : command_size - length tail ≡ length got = omega arith in
      rw
        (
          go,
          ans,
          behind,
          put_bytes-append got p tail,
          size_sub_fits w (length tail) (length p) h (omega arith),
          length-drop (length p) tail,
        )
        refl

  receive_some-nothing :
      (r : Round (List ℕ)) (s : Receiving) → r.ready ≡ false → receive_some w r s ≡ s
  unfolding receive_some
  receive_some-nothing r s ready = ground (arith, ready)

  loop_over :
      (rs : List (Round (List ℕ))) (got tail bytes : List ℕ)
      → length bytes ≡ 0
      → length tail ≡ 0
      → receive_loop w rs (partway got tail) ≡ partway (got ++ bytes) []
  loop_over rs got tail bytes b t =
      let no_bytes : bytes ≡ [] = nil_if bytes b in
      let no_tail : tail ≡ [] = nil_if tail t in
      loop_stops rs (partway got tail) t
      ∙ rw (no_bytes, no_tail, append-nil got, append-nil got) refl

  loop-Arrives :
      (rs : List (Round (List ℕ))) (got tail bytes : List ℕ)
      → Arrives rs bytes
      → length bytes ≡ length tail
      → length got + length tail ≡ command_size
      → receive_loop w rs (partway got tail) ≡ partway (got ++ bytes) []
  loop-Arrives rs got tail bytes all_there e all = loop_over rs got tail [] refl (sym e)
  loop-Arrives _ got tail bytes (nothing_yet {r} {rs} d ready later) e all =
      elim (dec_lt 0 (length tail)) [
        | no over ↦ loop_over (r ∷ rs) got tail bytes (omega arith) (omega arith)
        | yes more ↦
            loop_goes_on r rs (partway got tail) d more refl
            ∙ ap (receive_loop w rs) (receive_some-nothing r (partway got tail) ready)
            ∙ loop-Arrives rs got tail bytes later e all
      ]
  loop-Arrives _ got tail _ (piece {r} {rs} p bytes d ready ans later) e all =
      elim (dec_lt 0 (length tail)) [
        | no over ↦ loop_over (r ∷ rs) got tail (p ++ bytes) (omega arith) (omega arith)
        | yes more ↦
            let long = length-append p bytes in
            loop_goes_on r rs (partway got tail) d more refl
            ∙ ap (receive_loop w rs) (
                receive_some-partway r got tail p d ready (ap r.answer (sym e) ∙ ans) (omega arith)
                  all)
            ∙ loop-Arrives rs (got ++ p) (drop (length p) tail) bytes later
                (omega (arith, length-drop (length p) tail))
                (omega (arith, length-drop (length p) tail, length-append got p))
            ∙ ap (λ xs. partway xs []) (append_assoc got p bytes)
      ]

  encode_long : (c : Command) → length (encode c) ≡ command_size
  unfolding encode
  encode_long c = refl

  -- what a command leaves in `cmd`
  spent_by : Command → Receiving
  unfolding encode spent
  spent_by c = record { cmd = spent (encode c); left = 0; stage = Stage.client_serving }

  dispatch-encode :
      (c : Command)
      → c.parameter < 0x1_0000_0000
      → dispatch true (partway (encode c) []) ≡ (some c, spent_by c)
  unfolding dispatch spent_by encode
  dispatch-encode c small = rw (read-encode c small) refl

  -- A turn of `commandListener` during which the server serves and the bytes of a command arrive, in
  -- pieces of any lengths: the callback gets that command, whatever `cmd` held before. A
  -- command's parameter is below `2 ^ 32`, and `size_t` counts more than five bytes.
  pub listen-encode :
      (rs : List (Round (List ℕ))) (s : Receiving) (c : Command)
      → length s.cmd ≡ command_size
      → s.stage ≡ Stage.client_serving
      → Arrives rs (encode c)
      → c.parameter < 0x1_0000_0000
      → (s' : Receiving) × (listen w rs true s ≡ (some c, s'))
        × (s'.left ≡ 0)
        × (s'.stage ≡ Stage.client_serving)
        × (length s'.cmd ≡ command_size)
  unfolding listen spent_by
  listen-encode rs s c long serving arrives small =
      let start : record s { left = command_size } ≡ partway [] s.cmd = rw (long, serving) refl in
      let run =
        ap (receive_loop w rs) start
        ∙ loop-Arrives rs [] s.cmd (encode c) arrives (encode_long c ∙ sym long)
            (omega (arith, long)) in
      (spent_by c, ap (dispatch true) run ∙ dispatch-encode c small, refl, refl, refl)
