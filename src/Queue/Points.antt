-- ===== src/Queue/Points.antt =====
-- What the commands on one element do where it is allocated.
use android_rtlpower.Base.{◌≡◌, ◌≢◌, false, none, some, arith, ◌==◌}
use android_rtlpower.Queue.{
  Ptr, null, Element, Heap, write, load, store_new, set_next, set_prev, set_last, free,
}

pub not_null : {p : Ptr} → p ≢ null → (p == null) ≡ false
not_null nz = ground arith

module _ (h : Heap) {p : Ptr} (nz : p ≢ null) where
  pub store_new-ok : (e : Element) → store_new p e h ≡ some (tt, write h p (some e))
  unfolding store_new
  store_new-ok e = rw (not_null nz)

module _ {p : Ptr} {e : Element} (nz : p ≢ null) (h : Heap) (at : h p ≡ some e) where
  pub load-ok : load p h ≡ some (e, h)
  unfolding load
  load-ok = rw (not_null nz, at)

  pub set_next-ok : (q : Ptr) → set_next p q h ≡ some (tt, write h p (some (record e { next = q })))
  unfolding set_next
  set_next-ok q = rw load-ok

  pub set_prev-ok : (q : Ptr) → set_prev p q h ≡ some (tt, write h p (some (record e { prev = q })))
  unfolding set_prev
  set_prev-ok q = rw load-ok

  pub set_last-ok : (q : Ptr) → set_last p q h ≡ some (tt, write h p (some (record e { last = q })))
  unfolding set_last
  set_last-ok q = rw load-ok

  pub free-ok : free p h ≡ some (tt, write h p none)
  unfolding free
  free-ok = rw load-ok
