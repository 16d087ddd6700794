-- ===== src/WorkPool/Invariant/Freeing.antt =====
-- `pool_free` of workpool.c ends, and frees what is queued.
use android_rtlpower.Base.{
  ℕ, zero, suc, ◌+◌, ◌≤◌, ◌<◌, ◌≡◌, ◌≢◌, refl, sym, ap, ◌∙◌, fun_ext, Bool-cases, true, false,
  Option, none, some, List, [], ◌∷◌, arith, ◌==◌, length, inl, inr,
}
use android_rtlpower.Base.Int.{pos}
use mathlib.Core.Path.{subst}
use mathlib.Core.Option.{some-injective}
use android_rtlpower.Queue.{Ptr, null, Heap, queue_pop}
use android_rtlpower.Queue.Chain.{Cells, nil}
use android_rtlpower.ExtBuffer.{ExtBuffer, extbuffer_free}
use android_rtlpower.WorkPool.{
  Pool, put_at, popped, then_pool, try_pop, and_pool, free_samples, free_struct, discard, blocks_of,
  freed, drained, drain, drain_all, pool_free, pool_set_threads,
}
use android_rtlpower.WorkPool.Contents.{put_at-same, try_pop-empty}
use android_rtlpower.WorkPool.Invariant.{occ, total, queued_at, one_if, IsPool, try_pop-IsPool}

put_at_twice : (f : ℕ → Cells) (i : ℕ) (v w : Cells) → put_at (put_at f i v) i w ≡ put_at f i w
put_at_twice f i v w = fun_ext λ j. ground arith

one_if_bound : (o : Option ExtBuffer) → one_if o ≤ 1
one_if_bound none = omega arith
one_if_bound (some b) = omega arith

discard-IsPool :
    (p : Pool) (cells : ℕ → Cells) (held : List Ptr) (v : Ptr)
    → IsPool p cells (v ∷ held)
    → IsPool (discard v p) cells held
unfolding discard free_samples free_struct occ
discard-IsPool p cells held v is = record {
  queues_are = is.queues_are;
  once = λ a. ground (arith, is.once a, one_if_bound (p.buffers a));
  counted = omega (arith, is.counted);
  bounded = omega (arith, is.bounded);
  no_null = ground (arith, is.no_null);
}

all_freed : (o : Option ExtBuffer) → blocks_of (freed o) ≡ 0
unfolding extbuffer_free
all_freed none = refl
all_freed (some b) = refl

discard-leaked : (p : Pool) (v : Ptr) → (discard v p).leaked ≡ p.leaked
unfolding discard free_samples free_struct
discard-leaked p v = ground (arith, all_freed (p.buffers v))

popped-leaked :
    (p q : Pool) (id : ℕ) (v : Ptr) (o : Option ((Ptr × Ptr) × Heap))
    → then_pool o (popped p id) ≡ some (v, q)
    → q.leaked ≡ p.leaked
popped-leaked p q id v none e = absurd (ground (arith, e))
popped-leaked p q id v (some ((w, l), h)) e =
    ap (λ (t : Ptr × Pool). (t.1).leaked) (sym (some-injective _ _ e))

try_pop-leaked : (p q : Pool) (id : ℕ) (v : Ptr) → try_pop id p ≡ some (v, q) → q.leaked ≡ p.leaked
unfolding try_pop
try_pop-leaked p q id v e = popped-leaked p q id v (queue_pop (p.queues id) p.heap) e

discard-max_ids : (v : Ptr) (p : Pool) → (discard v p).max_ids ≡ p.max_ids
unfolding discard free_samples free_struct
discard-max_ids v p = refl

drain_end :
    (fuel id : ℕ) (p : Pool) → try_pop id p ≡ some (null, p) → drain (suc fuel) id p ≡ some p
unfolding drain
drain_end fuel id p e = ap (drained λ buff q. drain fuel id (discard buff q)) e

drain_go_on :
    (fuel id : ℕ) (p q : Pool) (v : Ptr)
    → try_pop id p ≡ some (v, q)
    → v ≢ null
    → drain (suc fuel) id p ≡ drain fuel id (discard v q)
unfolding drain
drain_go_on fuel id p q v e nn =
    ap (drained λ buff r. drain fuel id (discard buff r)) e ∙ ground (arith, nn)

drain_lem :
    (xs : Cells) (fuel id : ℕ) (p : Pool) (cells : ℕ → Cells) (held : List Ptr)
    → IsPool p cells held
    → id < p.max_ids
    → cells id ≡ xs
    → length xs < fuel
    → (p' : Pool) × (drain fuel id p ≡ some p')
      × IsPool p' (put_at cells id []) held
      × (p'.max_ids ≡ p.max_ids)
      × (p'.leaked ≡ p.leaked)
unfolding drain
drain_lem xs zero id p cells held is h e l = absurd (omega arith)
drain_lem [] (suc fuel) id p cells held is h e l = (
  p,
  drain_end fuel id p (try_pop-empty p.max_ids p cells is.queues_are id h e),
  subst (λ f. IsPool p f held) (sym (ap (put_at cells id) (sym e) ∙ put_at-same cells id)) is,
  refl,
  refl,
)
drain_lem (c ∷ xs) (suc fuel) id p cells held is h e l =
    let (q, run, nn, after, same, _, _, _) = try_pop-IsPool p cells held is id c xs h e in
    let (p', runs, is', ids', leaked) =
      drain_lem xs fuel id (discard c.1 q) (put_at cells id xs) held
        (discard-IsPool q (put_at cells id xs) held c.1 after) (rw (discard-max_ids c.1 q, same) h)
        (ground arith) (omega arith) in
    (
      p',
      drain_go_on fuel id p q c.1 run nn ∙ runs,
      subst (λ f. IsPool p' f held) (put_at_twice cells id xs []) is',
      ids' ∙ discard-max_ids c.1 q ∙ same,
      leaked ∙ discard-leaked q c.1 ∙ try_pop-leaked p q id c.1 run,
    )

-- `fuel` is more than the elements of any queue.
abbrev pub IsEnough : ℕ → (ℕ → Cells) → Type 0
IsEnough fuel cells = (j : ℕ) → length (cells j) < fuel

enough_lem :
    (fuel : ℕ) (cells : ℕ → Cells) (id : ℕ)
    → IsEnough fuel cells
    → IsEnough fuel (put_at cells id [])
enough_lem fuel cells id e j = elim (Bool-cases (j == id)) [
  | inl hit ↦ rw hit (omega (arith, e j))
  | inr miss ↦ rw miss (e j)
]

drain_all_lem :
    (left fuel id : ℕ) (p : Pool) (cells : ℕ → Cells) (held : List Ptr)
    → IsPool p cells held
    → IsEnough fuel cells
    → id + left ≡ p.max_ids
    → ((j : ℕ) → j < id → cells j ≡ [])
    → (p' : Pool) × (cells' : ℕ → Cells) × (drain_all fuel left id p ≡ some p')
      × IsPool p' cells' held
      × (p'.max_ids ≡ p.max_ids)
      × ((j : ℕ) → j < p.max_ids → cells' j ≡ [])
      × (p'.leaked ≡ p.leaked)
unfolding drain_all
drain_all_lem zero fuel id p cells held is enough ids done =
    (p, cells, refl, is, refl, λ j l. done j (omega arith), refl)
drain_all_lem (suc left) fuel id p cells held is enough ids done =
    let (q, run, is', same, leaked) =
      drain_lem (cells id) fuel id p cells held is (omega arith) refl (enough id) in
    let (p', cells', run', after, same', empty, leaked') =
      drain_all_lem left fuel (id + 1) q (put_at cells id []) held is'
        (enough_lem fuel cells id enough) (omega arith) (λ j l. next_done j l) in
    (
      p',
      cells',
      ap (λ o. and_pool o (drain_all fuel left (id + 1))) run ∙ run',
      after,
      same' ∙ same,
      λ j l. empty j (omega arith),
      leaked' ∙ leaked,
    )
  where
    next_done : (j : ℕ) → j < id + 1 → put_at cells id [] j ≡ []
    next_done j l = elim (Bool-cases (j == id)) [
      | inl hit ↦ rw hit refl
      | inr miss ↦ rw miss (done j (ground (arith, miss)))
    ]

total_none :
    (w : Cells → ℕ) (n : ℕ) (cells : ℕ → Cells)
    → w [] ≡ 0
    → ((j : ℕ) → j < n → cells j ≡ [])
    → total w n cells ≡ 0
unfolding total
total_none w zero cells z e = refl
total_none w (suc n) cells z e =
    omega (arith, total_none w n cells z (λ j l. e j (omega arith)), ap w (e n (omega arith)), z)

queued_none : (a : Ptr) → queued_at a [] ≡ 0
unfolding occ
queued_none a = refl

-- `pool_free` ends when every queue is shorter than the fuel, whatever buffers callers still hold: of
-- the memory of the pool's buffers exactly that of the held ones is still in use, no block of
-- samples has been lost with its buffer, and the pool is not valid and has no stages.
pub pool_free-held :
    (fuel : ℕ) (p : Pool) (cells : ℕ → Cells) (held : List Ptr)
    → IsPool p cells held
    → IsEnough fuel cells
    → (p' : Pool) × (pool_free fuel p ≡ some p')
      × ((a : Ptr) → one_if (p'.buffers a) ≡ occ a held)
      × (p'.valid ≡ false)
      × (p'.max_ids ≡ 0)
      × (p'.elements ≤ length held)
      × (p'.leaked ≡ p.leaked)
unfolding pool_free
pool_free-held fuel p cells held is enough = elim (Bool-cases (p.max_ids == 0)) [
  | inl none_left ↦ (
    record p { valid = false },
    rw none_left refl,
    λ a. omega (
      arith,
      is.once a,
      total_none (queued_at a) p.max_ids cells (queued_none a)
          (λ j l. absurd (ground (arith, none_left, l))),
    ),
    refl,
    ground (arith, none_left),
    omega (
      arith,
      is.counted,
      total_none (length {A = Ptr × Ptr}) p.max_ids cells refl
          (λ j l. absurd (ground (arith, none_left, l))),
    ),
    refl,
  )
  | inr some_left ↦
      let (q, cells', run, after, same, empty, leaked) =
        drain_all_lem p.max_ids fuel 0 p cells held is enough (omega arith)
          (λ j l. absurd (omega arith)) in
      (
        record q { max_ids = 0; elements = 0; valid = false },
        ground (arith, some_left, run),
        λ a. omega (
          arith,
          after.once a,
          total_none (queued_at a) q.max_ids cells' (queued_none a)
              (λ j l. empty j (omega (arith, same))),
        ),
        refl,
        refl,
        omega arith,
        leaked,
      )
]

no_occ : (a : Ptr) → occ a [] ≡ 0
unfolding occ
no_occ a = refl

not_one : (o : Option ExtBuffer) → one_if o ≡ 0 → o ≡ none
not_one none e = refl
not_one (some b) e = absurd (omega arith)

abbrev pub no_cells : ℕ → Cells
no_cells i = []

pub fresh-IsPool :
    (p : Pool)
    → p.queues ≡ (λ i. null)
    → p.elements ≡ 0
    → ((a : Ptr) → one_if (p.buffers a) ≡ 0)
    → IsPool p no_cells []
unfolding occ
fresh-IsPool p qs zeros free = record {
  queues_are = record {
    each = λ i l. record {
      chain = nil (ap (λ f. f i) qs);
      tail = λ e at nz. absurd (nz (ap (λ f. f i) qs));
    };
    apart = λ i j a l k x y. absurd (ground (arith, x));
  };
  once = λ a.
      omega
        (arith, free a, total_none (queued_at a) p.max_ids no_cells (queued_none a) (λ j l. refl));
  counted =
      omega
        (arith, zeros, total_none (length {A = Ptr × Ptr}) p.max_ids no_cells refl (λ j l. refl));
  bounded = omega (arith, zeros);
  no_null = not_one (p.buffers null) (free null);
}

-- When callers hold no buffer, `pool_set_threads` with a positive number frees every buffer that the
-- pool has, and leaves a valid pool of that many stages, with empty queues and no buffers.
pub pool_set_threads-IsPool :
    (fuel n : ℕ) (p : Pool) (cells : ℕ → Cells)
    → IsPool p cells []
    → IsEnough fuel cells
    → 0 < n
    → (p' : Pool) × (pool_set_threads fuel (pos n) p ≡ some p')
      × IsPool p' no_cells []
      × (p'.valid ≡ true)
      × (p'.max_ids ≡ n)
unfolding pool_set_threads
pool_set_threads-IsPool fuel n p cells is enough positive =
    let (q, run, freed, _, _, none_left, _) = pool_free-held fuel p cells [] is enough in
    let p' = record q { max_ids = n; queues = λ i. null; valid = true } in
    (
      p',
      ground (arith, run, positive),
      fresh-IsPool p' refl (omega (arith, none_left)) (λ a. omega (arith, freed a, no_occ a)),
      refl,
      refl,
    )
