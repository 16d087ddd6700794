-- ===== src/SdrTcp/Stages.antt =====
-- The stages of the server and the sockets that it owns.
use android_rtlpower.Base.{ℕ, ◌≡◌, Bool, true, false, List, arith, if◌then◌else◌}
use android_rtlpower.Base.Int.{ℤ, negsuc}
use android_rtlpower.SdrTcp.{
  Stage, SdrTcp, is_socket, is_uninitialized, close_all, sdrtcp_cleanup, open_fresh,
  sdrtcp_open_socket, sdrtcp_stop_serving_client,
}

-- A server that is down owns no listening socket and no pool; one that listens owns both.
pub record IsConsistent (obj : SdrTcp) : Type 0 where
  pub down :
      obj.state ≡ Stage.uninitialized → (obj.listen_socket ≡ negsuc 0) × (obj.pool_valid ≡ false)
  pub up :
      is_uninitialized obj.state ≡ false
      → (is_socket obj.listen_socket ≡ true) × (obj.pool_valid ≡ true)

-- `sdrtcp_open_socket` on a consistent server leaves a consistent one on every path. It reports
-- success exactly where the server listens afterwards, and is down otherwise.
pub sdrtcp_open_socket-IsConsistent :
    (info : List ℕ) (socket : ℤ) (bound listening : Bool) (obj : SdrTcp)
    → IsConsistent obj
    → IsConsistent ((sdrtcp_open_socket info socket bound listening obj).1)
      × (((sdrtcp_open_socket info socket bound listening obj).1).state ≡ (
          if (sdrtcp_open_socket info socket bound listening obj).0
          then Stage.socket_open
          else Stage.uninitialized))
unfolding sdrtcp_open_socket open_fresh sdrtcp_cleanup close_all
sdrtcp_open_socket-IsConsistent info socket bound listening obj c = ground (arith, c.down, c.up)

-- `sdrtcp_stop_serving_client` leaves a consistent server consistent, in every stage.
pub sdrtcp_stop_serving_client-IsConsistent :
    (obj : SdrTcp) → IsConsistent obj → IsConsistent (sdrtcp_stop_serving_client obj)
unfolding sdrtcp_stop_serving_client sdrtcp_cleanup close_all
sdrtcp_stop_serving_client-IsConsistent obj c = ground (arith, c.down, c.up)
