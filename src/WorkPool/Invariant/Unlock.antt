-- ===== src/WorkPool/Invariant/Unlock.antt =====
-- `pool_get_unlock` of workpool.c hands a buffer on to the next stage.
use android_rtlpower.Base.{
  ℕ, suc, ◌<◌, ◌≡◌, ◌≢◌, refl, ap, ◌∙◌, Bool, true, false, Option, none, some, List, [], ◌∷◌, ◌++◌,
  arith, ◌==◌, if◌then◌else◌,
}
use android_rtlpower.Base.Int.{pos}
use android_rtlpower.Queue.{Ptr, null}
use android_rtlpower.Queue.Chain.{Cells}
use android_rtlpower.ExtBuffer.{ExtBuffer, Memory, extbuffer_preparetohandle}
use android_rtlpower.WorkPool.{Pool, put_at, append, add, reset_buffer, pool_get_unlock}
use android_rtlpower.WorkPool.Invariant.{occ, one_if, IsPool, append-IsPool}

emptied_lem :
    (m : Memory) (b : ExtBuffer)
    → extbuffer_preparetohandle m b (pos 0) ≡ some (record b { size_valid_elements = 0 })
unfolding extbuffer_preparetohandle
emptied_lem m b = ground arith

add_valid :
    (new_el id : ℕ) (v : Ptr) (p : Pool) → p.valid ≡ true → add new_el id v p ≡ append new_el id v p
unfolding add
add_valid new_el id v p ok = ap (λ b. if b then append new_el id v p else some p) ok

unlock_inner :
    (m : Memory) (new_el id : ℕ) (v : Ptr) (p : Pool)
    → p.valid ≡ true
    → (suc id == p.max_ids) ≡ false
    → pool_get_unlock m new_el id v p ≡ append new_el (suc id) v p
unfolding pool_get_unlock
unlock_inner m new_el id v p ok e = ground (arith, ok, e)

unlock_last :
    (m : Memory) (new_el id : ℕ) (v : Ptr) (p q : Pool)
    → p.valid ≡ true
    → (suc id == p.max_ids) ≡ true
    → reset_buffer m v p ≡ some q
    → q.valid ≡ true
    → pool_get_unlock m new_el id v p ≡ append new_el 0 v q
unfolding pool_get_unlock
unlock_last m new_el id v p q ok e r qv = ground (arith, ok, e, r, qv)

-- the stage after `id`
abbrev pub next_stage : ℕ → ℕ → ℕ
next_stage max_ids id = if suc id == max_ids then 0 else suc id

module _ (m : Memory) (p : Pool) (cells : ℕ → Cells) (v : Ptr) (held : List Ptr)
    (is : IsPool p cells (v ∷ held)) where
  held_some : (o : Option ExtBuffer) → p.buffers v ≡ o → (b : ExtBuffer) × (p.buffers v ≡ some b)
  unfolding occ
  held_some none e = absurd (ground (arith, is.once v, ap one_if e))
  held_some (some b) e = (b, e)

  abbrev emptied : ExtBuffer → Pool
  emptied b = record p {
    buffers = put_at p.buffers v (some (record b { size_valid_elements = 0 }));
  }

  reset-IsPool :
      (b : ExtBuffer)
      → p.buffers v ≡ some b
      → (reset_buffer m v p ≡ some (emptied b)) × IsPool (emptied b) cells (v ∷ held)
  unfolding reset_buffer
  reset-IsPool b e = (
    rw (e, emptied_lem m b) refl,
    record {
      queues_are = is.queues_are;
      once = λ a. ground (arith, is.once a, e);
      counted = is.counted;
      bounded = is.bounded;
      no_null = ground (arith, is.no_null, e);
    },
  )

  abbrev pub HandedOn : ℕ → ℕ → ℕ → Type 0
  HandedOn new_el id next =
      (p' : Pool) × (pool_get_unlock m new_el id v p ≡ some p')
      × IsPool p' (put_at cells next (cells next ++ (new_el, v) ∷ [])) held
      × (p'.max_ids ≡ p.max_ids)
      × (p'.valid ≡ true)
      × (suc id ≡ p.max_ids
          → (b : ExtBuffer) × (p'.buffers v ≡ some b) × (b.size_valid_elements ≡ 0))
      × ((a : Ptr) → a ≢ v → p'.buffers a ≡ p.buffers a)
      × (suc id ≢ p.max_ids → p'.buffers ≡ p.buffers)
      × ((a : Ptr) → a ≢ new_el → p.heap a ≡ none → p'.heap a ≡ none)

  module _ (new_el id : ℕ) (ok : p.valid ≡ true) (h : id < p.max_ids) (nn : new_el ≢ null)
      (fresh : p.heap new_el ≡ none) where
    inner_lem : (suc id == p.max_ids) ≡ false → HandedOn new_el id (suc id)
    inner_lem e =
        let (p', run, after, ids, valid, same, free) =
          append-IsPool p cells (v ∷ held) is new_el (suc id) v held (ground (arith, e)) nn fresh
            (λ a. refl) refl in
        (
          p',
          unlock_inner m new_el id v p ok e ∙ run,
          after,
          ids,
          valid ∙ ok,
          λ l. absurd (ground (arith, e, l)),
          λ a ne. ap (λ f. f a) same,
          λ _. same,
          free,
        )

    last_lem : (suc id == p.max_ids) ≡ true → HandedOn new_el id 0
    last_lem e =
        let (b, some_b) = held_some (p.buffers v) refl in
        let (run, is') = reset-IsPool b some_b in
        let (p', run', after, ids, valid, same, free) =
          append-IsPool (emptied b) cells (v ∷ held) is' new_el 0 v held (omega arith) nn fresh
            (λ a. refl) refl in
        (
          p',
          unlock_last m new_el id v p (emptied b) ok e run ok ∙ run',
          after,
          ids,
          valid ∙ ok,
          λ l. (record b { size_valid_elements = 0 }, ap (λ f. f v) same ∙ ground arith, refl),
          λ a ne. ap (λ f. f a) same ∙ ground (arith, ne),
          λ ne. absurd (ne (ground (arith, e))),
          free,
        )

    handed_lem :
        (last : Bool)
        → (suc id == p.max_ids) ≡ last
        → HandedOn new_el id (if last then 0 else suc id)
    handed_lem true e = last_lem e
    handed_lem false e = inner_lem e

  -- all of the claim below, and which addresses stay unused
  pub pool_get_unlock-HandedOn :
      (new_el id : ℕ)
      → p.valid ≡ true
      → id < p.max_ids
      → new_el ≢ null
      → p.heap new_el ≡ none
      → HandedOn new_el id (next_stage p.max_ids id)
  pool_get_unlock-HandedOn new_el id ok h nn fresh =
      handed_lem new_el id ok h nn fresh (suc id == p.max_ids) refl

  -- Where `pool_get_unlock` is called on a valid pool that keeps its buffers in one place each, with a
  -- buffer `v` that the caller holds, it returns, `v` is the last in the queue of the next stage,
  -- which is stage 0 behind the last one, and the caller holds it no longer. A buffer that the last
  -- stage hands on is empty, and otherwise no buffer is changed. `malloc` gives memory that is in no
  -- use.
  pub pool_get_unlock-IsPool :
      (new_el id : ℕ)
      → p.valid ≡ true
      → id < p.max_ids
      → new_el ≢ null
      → p.heap new_el ≡ none
      → let next = next_stage p.max_ids id in
        (p' : Pool) × (pool_get_unlock m new_el id v p ≡ some p')
        × IsPool p' (put_at cells next (cells next ++ (new_el, v) ∷ [])) held
        × (p'.max_ids ≡ p.max_ids)
        × (p'.valid ≡ true)
        × (suc id ≡ p.max_ids
            → (b : ExtBuffer) × (p'.buffers v ≡ some b) × (b.size_valid_elements ≡ 0))
        × ((a : Ptr) → a ≢ v → p'.buffers a ≡ p.buffers a)
        × (suc id ≢ p.max_ids → p'.buffers ≡ p.buffers)
  pool_get_unlock-IsPool new_el id ok h nn fresh =
      let (p', run, after, ids, valid, empty, others, same, free) =
        pool_get_unlock-HandedOn new_el id ok h nn fresh in
      (p', run, after, ids, valid, empty, others, same)
