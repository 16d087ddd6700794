-- ===== src/WorkPool/Runs.antt =====
-- Threads that share one pool: the steps that the mutexes of workpool.c make whole, in any order.
-- The test of `elements` and its increment count as one step, as when one thread runs stage 0.
use android_rtlpower.Base.{
  ℕ, suc, ◌<◌, ◌≡◌, ◌≢◌, refl, sym, ap, ◌∙◌, true, some, none, List, [], ◌∷◌, arith, length,
}
use mathlib.Core.Path.{subst}
use mathlib.Core.Option.{some-injective}
use android_rtlpower.Queue.{Ptr, null}
use android_rtlpower.Queue.Chain.{Cells}
use android_rtlpower.ExtBuffer.{Memory}
use android_rtlpower.WorkPool.{Pool, try_pop, create, pool_get_unlock}
use android_rtlpower.WorkPool.Contents.{try_pop-empty}
use android_rtlpower.WorkPool.Invariant.{occ, IsPool, try_pop-IsPool, create-IsPool}
use android_rtlpower.WorkPool.Invariant.Unlock.{pool_get_unlock-IsPool}

module _ (m : Memory) where
  -- One step, with the buffers that the threads hold before it and after it.
  pub data Step : Pool → List Ptr → Pool → List Ptr → Type 0 where
    took :
        {p q : Pool} {held : List Ptr} (id v : ℕ)
        → id < p.max_ids
        → try_pop id p ≡ some (v, q)
        → v ≢ null
        → Step p held q (v ∷ held)
    made :
        {p q : Pool} {held : List Ptr} (new : Ptr)
        → p.elements < p.max_elements
        → new ≢ null
        → p.buffers new ≡ none
        → create new p ≡ some (new, q)
        → Step p held q (new ∷ held)
    gave :
        {p q : Pool} {held rest : List Ptr} (new_el id v : ℕ)
        → id < p.max_ids
        → new_el ≢ null
        → p.heap new_el ≡ none
        → ((a : Ptr) → occ a held ≡ occ a (v ∷ rest))
        → length held ≡ suc (length rest)
        → pool_get_unlock m new_el id v p ≡ some q
        → Step p held q rest

  pub data Run : Pool → List Ptr → Pool → List Ptr → Type 0 where
    done : {p : Pool} {held : List Ptr} → Run p held p held
    and_then :
        {p q r : Pool} {held held' held'' : List Ptr}
        → Step p held q held'
        → Run q held' r held''
        → Run p held r held''

  reordered-IsPool :
      (p : Pool) (cells : ℕ → Cells) (held rest : List Ptr) (v : Ptr)
      → IsPool p cells held
      → ((a : Ptr) → occ a held ≡ occ a (v ∷ rest))
      → length held ≡ suc (length rest)
      → IsPool p cells (v ∷ rest)
  reordered-IsPool p cells held rest v is gives less = record {
    queues_are = is.queues_are;
    once = λ a. omega (arith, is.once a, gives a);
    counted = omega (arith, is.counted, less);
    bounded = is.bounded;
    no_null = is.no_null;
  }

  abbrev Kept : Pool → List Ptr → Type 0
  Kept p held = (cells : ℕ → Cells) × IsPool p cells held × (p.valid ≡ true)

  carry_over : (p q : Pool) (held : List Ptr) → some p ≡ some q → Kept p held → Kept q held
  carry_over p q held e = subst (λ r. Kept r held) (some-injective p q e)

  carry_got :
      (held : List Ptr) (r s : Ptr × Pool)
      → some r ≡ some s
      → Kept r.1 (r.0 ∷ held)
      → Kept s.1 (s.0 ∷ held)
  carry_got held r s e = subst (λ (t : Ptr × Pool). Kept t.1 (t.0 ∷ held)) (some-injective r s e)

  took-Kept :
      (p q : Pool) (cells : ℕ → Cells) (held : List Ptr) (id v : ℕ) (xs : Cells)
      → IsPool p cells held
      → p.valid ≡ true
      → id < p.max_ids
      → cells id ≡ xs
      → try_pop id p ≡ some (v, q)
      → v ≢ null
      → Kept q (v ∷ held)
  took-Kept p q cells held id v [] is ok h e run nn = absurd (
      nn (
        sym (
          ap (λ (t : Ptr × Pool). t.0)
            (some-injective (null, p) (v, q)
              (sym (try_pop-empty p.max_ids p cells is.queues_are id h e) ∙ run)))))
  took-Kept p q cells held id v (c ∷ xs) is ok h e run nn =
      let (p', run', _, after, _, valid, _, _) = try_pop-IsPool p cells held is id c xs h e in
      carry_got held (c.1, p') (v, q) (sym run' ∙ run) (_, after, valid ∙ ok)

  Step-Kept :
      (p q : Pool) (held held' : List Ptr) → Step p held q held' → Kept p held → Kept q held'
  Step-Kept p q held held' (took id v h run nn) (cells, is, ok) =
      took-Kept p q cells held id v (cells id) is ok h refl run nn
  Step-Kept p q held held' (made new room nn fresh run) (cells, is, ok) =
      let (p', run', after, _, valid, _, _) = create-IsPool p cells held is new nn fresh room in
      carry_got held (new, p') (new, q) (sym run' ∙ run) (_, after, valid ∙ ok)
  Step-Kept p q held held' (gave new_el id v h nn fresh gives less run) (cells, is, ok) =
      let (p', run', after, _, valid, _, _, _) =
        pool_get_unlock-IsPool m p cells v held'
          (reordered-IsPool p cells held held' v is gives less) new_el id ok h nn fresh in
      carry_over p' q held' (sym run' ∙ run) (_, after, valid)

  run-Kept : (p q : Pool) (held held' : List Ptr) → Run p held q held' → Kept p held → Kept q held'
  run-Kept p q held held' done k = k
  run-Kept p q held held' (and_then {q = r} {held' = held''} step rest) k =
      run-Kept r q held'' held' rest (Step-Kept p r held held'' step k)

  -- Where each buffer of a valid pool is queued once or held once, and the pool has as many as it
  -- counts and at most `max_elements`, this is so after any sequence of steps of the threads.
  pub Run-IsPool :
      (p q : Pool) (cells : ℕ → Cells) (held held' : List Ptr)
      → IsPool p cells held
      → p.valid ≡ true
      → Run p held q held'
      → (cells' : ℕ → Cells) × IsPool q cells' held' × (q.valid ≡ true)
  Run-IsPool p q cells held held' is ok run = run-Kept p q held held' run (cells, is, ok)
