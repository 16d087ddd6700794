-- ===== src/WorkPool/Invariant/Calls.antt =====
-- The calls of workpool.c keep every buffer in one place and do not fault.
use android_rtlpower.Base.{
  ℕ, ◌⊎◌, ◌<◌, ◌≡◌, ◌≢◌, refl, ap, ◌∙◌, Bool, true, false, Option, none, some, List, [], ◌∷◌, arith,
  ◌==◌, ltb, inl, inr, ◌&&◌, if◌then◌else◌,
}
use android_rtlpower.Queue.{Ptr, null}
use android_rtlpower.Queue.Chain.{Cells}
use android_rtlpower.WorkPool.{Pool, put_at, try_pop, pop, then_pool, get_other, pool_get_wait_lock}
use android_rtlpower.WorkPool.Contents.{try_pop-empty}
use android_rtlpower.WorkPool.Invariant.{IsPool, try_pop-IsPool, create-IsPool}

-- The pool after a call that returned `v`, when the callers held `held` before it: a buffer that
-- is returned is one that the caller now holds.
pub data IsGot (p : Pool) (held : List Ptr) : Ptr → Type 0 where
  nothing : (cells : ℕ → Cells) → IsPool p cells held → IsGot p held null
  buffer : (v : Ptr) (cells : ℕ → Cells) → v ≢ null → IsPool p cells (v ∷ held) → IsGot p held v

-- `call` returns, and what it returns is right.
abbrev pub Gets : Option (Ptr × Pool) → List Ptr → Type 0
Gets call held = (v : Ptr) × (p : Pool) × (call ≡ some (v, p)) × IsGot p held v

module _ (p : Pool) (cells : ℕ → Cells) (held : List Ptr) (is : IsPool p cells held) (id : ℕ)
    (h : id < p.max_ids) where
  pub try_pop-Gets_of : (xs : Cells) → cells id ≡ xs → Gets (try_pop id p) held
  try_pop-Gets_of [] e =
      (null, p, try_pop-empty p.max_ids p cells is.queues_are id h e, nothing cells is)
  try_pop-Gets_of (c ∷ xs) e =
      let (q, run, nn, after, _, _, _, _) = try_pop-IsPool p cells held is id c xs h e in
      (c.1, q, run, buffer c.1 (put_at cells id xs) nn after)

pop_not-null :
    (wait : Pool → Option Pool) (id : ℕ) (p q : Pool) (v : Ptr) (block : Bool)
    → p.valid ≡ true
    → try_pop id p ≡ some (v, q)
    → v ≢ null
    → pop wait id block p ≡ some (v, q)
unfolding pop
pop_not-null wait id p q v block ok e nn = rw e (rw ok (ground arith))

pop_empty_lem :
    (wait : Pool → Option Pool) (id : ℕ) (p : Pool)
    → p.valid ≡ true
    → try_pop id p ≡ some (null, p)
    → pop wait id false p ≡ some (null, p)
unfolding pop
pop_empty_lem wait id p ok e = rw e (rw ok refl)

pop_wait :
    (wait : Pool → Option Pool) (id : ℕ) (p : Pool)
    → p.valid ≡ true
    → try_pop id p ≡ some (null, p)
    → pop wait id true p ≡ then_pool (wait p) (try_pop id)
unfolding pop
pop_wait wait id p ok e = rw e (rw ok refl)

get_other_not-null :
    (wait : Pool → Option Pool) (new id : ℕ) (block : Bool) (v : Ptr) (q : Pool)
    → v ≢ null
    → get_other wait new id block (v, q) ≡ some (v, q)
unfolding get_other
get_other_not-null wait new id block v q nn = ground (arith, nn)

call_lem :
    (wait : Pool → Option Pool) (new id : ℕ) (block : Bool) (p : Pool) (r : Ptr × Pool)
    → p.valid ≡ true
    → pop wait id false p ≡ some r
    → pool_get_wait_lock wait new id block p ≡ get_other wait new id block r
unfolding pool_get_wait_lock
call_lem wait new id block p r ok e =
    ap
      (λ b.
        if b then then_pool (pop wait id false p) (get_other wait new id block) else some (null, p))
      ok
    ∙ ap (λ o. then_pool o (get_other wait new id block)) e

carry_along : (c d : Option (Ptr × Pool)) (held : List Ptr) → c ≡ d → Gets d held → Gets c held
carry_along c d held e (v, p, run, got) = (v, p, e ∙ run, got)

module _ (wait : Pool → Option Pool) (new : Ptr) (id : ℕ) (p w : Pool) (cells cells' : ℕ → Cells)
    (held held' : List Ptr) (is : IsPool p cells held) (ok : p.valid ≡ true) (h : id < p.max_ids)
    (nn : new ≢ null) (fresh : p.buffers new ≡ none) (waits : wait p ≡ some w)
    (is' : IsPool w cells' held') (h' : id < w.max_ids) where
  -- what `pool_get_wait_lock` does when the queue is empty
  other_lem :
      (block : Bool)
      → try_pop id p ≡ some (null, p)
      → (make : Bool) → ((id == 0) && ltb p.elements p.max_elements) ≡ make
      → Gets (get_other wait new id block (null, p)) held
        ⊎ Gets (get_other wait new id block (null, p)) held'
  unfolding get_other
  other_lem block e true m =
      let (q, run, after, _, _, _, _) =
        create-IsPool p cells held is new nn fresh (ground (arith, m)) in
      inl (new, q, rw (m, run) refl, buffer new cells nn after)
  other_lem true e false m =
      let (v, q, run, got) = try_pop-Gets_of w cells' held' is' id h' (cells' id) refl in
      inr (v, q, rw (m, pop_wait wait id p ok e, waits) run, got)
  other_lem false e false m = inl (null, p, rw m refl, nothing cells is)

  -- The first `pop` of a valid pool finds the head of the queue, which is returned, or nothing, and then
  -- a buffer is made, or is waited for, or none is returned.
  got_lem :
      (block : Bool) (xs : Cells)
      → cells id ≡ xs
      → Gets (pool_get_wait_lock wait new id block p) held
        ⊎ Gets (pool_get_wait_lock wait new id block p) held'
  got_lem block [] e =
      let empty : try_pop id p ≡ some (null, p) =
        try_pop-empty p.max_ids p cells is.queues_are id h e in
      let via = call_lem wait new id block p (null, p) ok (pop_empty_lem wait id p ok empty) in
      elim (other_lem block empty ((id == 0) && ltb p.elements p.max_elements) refl) [
        | inl got ↦ inl (carry_along _ _ held via got)
        | inr got ↦ inr (carry_along _ _ held' via got)
      ]
  got_lem block (c ∷ xs) e =
      let (q, run, nn', after, _, _, _, _) = try_pop-IsPool p cells held is id c xs h e in
      inl (
        c.1,
        q,
        call_lem wait new id block p (c.1, q) ok (pop_not-null wait id p q c.1 false ok run nn')
            ∙ get_other_not-null wait new id block c.1 q nn',
        buffer c.1 (put_at cells id xs) nn' after,
      )

  -- `pool_get_wait_lock` on a valid pool, for a stage that the pool has, returns, with NULL or a
  -- buffer. Where the queues and the callers' hands together hold each buffer of the pool once and
  -- the pool has as many as it counts and at most `max_elements`, both before the call and when
  -- the wait ends, this is so after the call, with a buffer that is returned among those that
  -- callers hold. `malloc` gives memory that is in no use.
  pub pool_get_wait_lock-IsPool :
      (block : Bool)
      → Gets (pool_get_wait_lock wait new id block p) held
        ⊎ Gets (pool_get_wait_lock wait new id block p) held'
  pool_get_wait_lock-IsPool block = got_lem block (cells id) refl
