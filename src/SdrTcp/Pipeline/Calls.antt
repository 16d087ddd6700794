-- ===== src/SdrTcp/Pipeline/Calls.antt =====
-- What a call of workpool.c that returned did to the pool.
use android_rtlpower.Base.{
  ℕ, suc, ◌<◌, ◌≡◌, ◌≢◌, refl, sym, ap, ◌∙◌, true, none, some, List, [], ◌∷◌, ◌++◌,
}
use mathlib.Core.Path.{subst}
use mathlib.Core.Option.{some-injective}
use android_rtlpower.Queue.{Ptr, null}
use android_rtlpower.Queue.Chain.{Cells}
use android_rtlpower.ExtBuffer.{Memory}
use android_rtlpower.WorkPool.{Pool, put_at, try_pop, create, pool_get_unlock}
use android_rtlpower.WorkPool.Contents.{try_pop-empty}
use android_rtlpower.WorkPool.Invariant.{IsPool, try_pop-IsPool, create-IsPool}
use android_rtlpower.WorkPool.Invariant.Unlock.{next_stage, pool_get_unlock-HandedOn}

-- A call of `queue_pop` that returned `v` took the head of its queue.
abbrev pub Took : Pool → (ℕ → Cells) → List Ptr → ℕ → Ptr × Pool → Type 0
Took p cells held id (v, q) =
    (c : Ptr × Ptr) × (xs : Cells) × (cells id ≡ c ∷ xs)
    × (c.1 ≡ v)
    × IsPool q (put_at cells id xs) (v ∷ held)
    × (q.max_ids ≡ p.max_ids)
    × (q.valid ≡ p.valid)
    × (q.buffers ≡ p.buffers)
    × ((a : Ptr) → p.heap a ≡ none → q.heap a ≡ none)

module _ (p : Pool) (cells : ℕ → Cells) (held : List Ptr) (is : IsPool p cells held) (id : ℕ)
    (h : id < p.max_ids) (v : Ptr) (q : Pool) (run : try_pop id p ≡ some (v, q))
    (nn : v ≢ null) where
  of_cells : (xs : Cells) → cells id ≡ xs → Took p cells held id (v, q)
  of_cells [] e = absurd (
      nn (
        sym (
          ap (λ (t : Ptr × Pool). t.0)
            (some-injective (null, p) (v, q)
              (sym (try_pop-empty p.max_ids p cells is.queues_are id h e) ∙ run)))))
  of_cells (c ∷ xs) e =
      let (p', run', _, after, ids, valid, same, free) =
        try_pop-IsPool p cells held is id c xs h e in
      subst (Took p cells held id) (some-injective (c.1, p') (v, q) (sym run' ∙ run))
        (c, xs, e, refl, after, ids, valid, same, free)

  pub took : Took p cells held id (v, q)
  took = of_cells (cells id) refl

-- A call of `pool_get_unlock` put `v` behind the others in the queue of the next stage.
abbrev pub Gave : Pool → (ℕ → Cells) → List Ptr → (new_el id next : ℕ) → Ptr → Pool → Type 0
Gave p cells held new_el id next v q =
    IsPool q (put_at cells next (cells next ++ (new_el, v) ∷ [])) held
    × (q.max_ids ≡ p.max_ids)
    × (q.valid ≡ true)
    × ((a : Ptr) → a ≢ v → q.buffers a ≡ p.buffers a)
    × (suc id ≢ p.max_ids → q.buffers ≡ p.buffers)
    × ((a : Ptr) → a ≢ new_el → p.heap a ≡ none → q.heap a ≡ none)

pub gave :
    (m : Memory) (p : Pool) (cells : ℕ → Cells) (v : Ptr) (held : List Ptr) (new_el id next : ℕ)
    (q : Pool)
    → next_stage p.max_ids id ≡ next
    → IsPool p cells (v ∷ held)
    → p.valid ≡ true
    → id < p.max_ids
    → new_el ≢ null
    → p.heap new_el ≡ none
    → pool_get_unlock m new_el id v p ≡ some q
    → Gave p cells held new_el id next v q
gave m p cells v held new_el id next q to is ok h nn fresh run =
    let (p', run', after, ids, valid, _, others, same, free) =
      pool_get_unlock-HandedOn m p cells v held is new_el id ok h nn fresh in
    subst (λ n. Gave p cells held new_el id n v q) to
      (subst (Gave p cells held new_el id (next_stage p.max_ids id) v)
        (some-injective p' q (sym run' ∙ run)) (after, ids, valid, others, same, free))

pub made :
    (p : Pool) (cells : ℕ → Cells) (held : List Ptr) (new : Ptr) (q : Pool)
    → IsPool p cells held
    → new ≢ null
    → p.buffers new ≡ none
    → p.elements < p.max_elements
    → create new p ≡ some (new, q)
    → IsPool q cells (new ∷ held)
      × (q.max_ids ≡ p.max_ids)
      × (q.valid ≡ p.valid)
      × ((a : Ptr) → a ≢ new → q.buffers a ≡ p.buffers a)
      × (q.heap ≡ p.heap)
made p cells held new q is nn fresh room run =
    let (p', run', after, ids, valid, others, heap) =
      create-IsPool p cells held is new nn fresh room in
    subst
      (λ (t : Ptr × Pool).
        IsPool t.1 cells (new ∷ held)
        × (t.1.max_ids ≡ p.max_ids)
        × (t.1.valid ≡ p.valid)
        × ((a : Ptr) → a ≢ new → t.1.buffers a ≡ p.buffers a)
        × (t.1.heap ≡ p.heap))
      (some-injective (new, p') (new, q) (sym run' ∙ run)) (after, ids, valid, others, heap)
