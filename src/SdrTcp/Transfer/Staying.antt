-- ===== src/SdrTcp/Transfer/Staying.antt =====
-- The loop of `serveClient` never resets the server.
use android_rtlpower.Base.{
  ℕ, ◌≡◌, refl, Bool, true, false, ◌&&◌, List, [], ◌∷◌, ltb, if◌then◌else◌, arith,
}
use android_rtlpower.SdrTcp.{is_uninitialized}
use android_rtlpower.SdrTcp.Transfer.{
  is_serving, Round, Sending, send_some, give_up, send_loop, send_buffer,
}

stage_if :
    (b : Bool) (x y : Sending)
    → is_uninitialized x.stage ≡ false
    → is_uninitialized y.stage ≡ false
    → is_uninitialized ((if b then x else y).stage) ≡ false
stage_if true x y a c = a
stage_if false x y a c = c

module _ (w : ℕ) (bytes : List ℕ) where
  round_up :
      (r : Round ℕ) (s : Sending)
      → is_uninitialized s.stage ≡ false
      → is_uninitialized ((give_up r.checks (send_some w bytes r s)).stage) ≡ false
  unfolding give_up send_some
  round_up r s up = ground (arith, up)

  send_loop_up :
      (rs : List (Round ℕ)) (s : Sending)
      → is_uninitialized s.stage ≡ false
      → is_uninitialized ((send_loop w bytes rs s).stage) ≡ false
  unfolding send_loop
  send_loop_up [] s up = up
  send_loop_up (r ∷ rs) s up =
      let next = give_up r.checks (send_some w bytes r s) in
      stage_if (ltb 0 s.bytesleft && r.still && is_serving s.stage) (send_loop w bytes rs next) s
        (send_loop_up rs next (round_up r s up)) up

  pub send_buffer_up :
      (rs : List (Round ℕ)) (wire : List ℕ)
      → is_uninitialized ((send_buffer w bytes rs wire).stage) ≡ false
  unfolding send_buffer
  send_buffer_up rs wire = send_loop_up rs _ refl
