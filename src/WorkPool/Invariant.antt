-- ===== src/WorkPool/Invariant.antt =====
-- Every buffer of the pool is in exactly one place, a queue or a caller's hands, and the pool makes
-- no more of them than it may.
pub mod Calls
pub mod Freeing
pub mod Unlock
use android_rtlpower.Base.{
  ℕ, zero, suc, ◌+◌, ◌-◌, ◌≤◌, ◌<◌, ◌≡◌, ◌≢◌, refl, sym, ap, ◌∙◌, Bool, true, false, Option, none,
  some, List, [], ◌∷◌, ◌++◌, length, length-append, map-append, arith, ◌==◌, inl, inr, dec_lt,
  Bool-cases, if◌then◌else◌,
}
use android_rtlpower.Queue.{Ptr, null, Heap}
use android_rtlpower.Queue.Chain.{Cells}
use android_rtlpower.Queue.Fifo.{payloads}
use android_rtlpower.ExtBuffer.{ExtBuffer, extbuffer_init}
use android_rtlpower.WorkPool.{Pool, put_at, try_pop, append, create}
use android_rtlpower.WorkPool.Contents.{IsQueues, try_pop-empty, try_pop-first, append-last}

unfoldable pub occ : Ptr → List Ptr → ℕ
occ a [] = 0
occ a (x ∷ xs) = (if a == x then 1 else 0) + occ a xs

pub occ-append : (a : Ptr) (xs ys : List Ptr) → occ a (xs ++ ys) ≡ occ a xs + occ a ys
unfolding occ
occ-append a [] ys = omega arith
occ-append a (x ∷ xs) ys = omega (arith, occ-append a xs ys)

module _ {ℓ} {A : Type ℓ} (w : A → ℕ) where
  pub total : ℕ → (ℕ → A) → ℕ
  total zero f = 0
  total (suc n) f = total n f + w (f n)

  total-put_at_le : (n : ℕ) (f : ℕ → A) (i : ℕ) (a : A) → n ≤ i → total n (put_at f i a) ≡ total n f
  unfolding total
  total-put_at_le zero f i a h = refl
  total-put_at_le (suc n) f i a h = ground (arith, total-put_at_le n f i a)

  pub total-put_at :
      (n : ℕ) (f : ℕ → A) (i : ℕ) (a : A)
      → i < n
      → total n (put_at f i a) + w (f i) ≡ total n f + w a
  unfolding total
  total-put_at zero f i a h = absurd (omega arith)
  total-put_at (suc n) f i a h = elim (dec_lt i n) [
    | yes below ↦ ground (arith, total-put_at n f i a below)
    | no last ↦ ground (arith, total-put_at_le n f i a)
  ]

  pub le_total : (n : ℕ) (f : ℕ → A) (i : ℕ) → i < n → w (f i) ≤ total n f
  unfolding total
  le_total zero f i h = absurd (omega arith)
  le_total (suc n) f i h = elim (dec_lt i n) [
    | yes below ↦ omega (arith, le_total n f i below)
    | no last ↦ let e : i ≡ n = omega arith in rw e (omega arith)
  ]

-- how often `a` is queued, where `cells` are the contents of the queues
abbrev pub queued_at : Ptr → Cells → ℕ
queued_at a xs = occ a (payloads xs)

queued_at-snoc :
    (a : Ptr) (xs : Cells) (new v : Ptr)
    → queued_at a (xs ++ (new, v) ∷ []) ≡ queued_at a xs + occ a (v ∷ [])
queued_at-snoc a xs new v =
    ap (occ a) (map-append (λ (c : Ptr × Ptr). c.1) xs ((new, v) ∷ []))
    ∙ occ-append a (payloads xs) (v ∷ [])

abbrev pub one_if : Option ExtBuffer → ℕ
one_if none = 0
one_if (some b) = 1

-- The queues hold `cells`, and callers hold the buffers `held`.
pub record IsPool (p : Pool) (cells : ℕ → Cells) (held : List Ptr) : Type 0 where
  pub queues_are : IsQueues p.max_ids p.heap p.queues cells
  pub once : (a : Ptr) → total (queued_at a) p.max_ids cells + occ a held ≡ one_if (p.buffers a)
  pub counted : total (length {A = Ptr × Ptr}) p.max_ids cells + length held ≡ p.elements
  pub bounded : p.elements ≤ p.max_elements
  pub no_null : p.buffers null ≡ none

module _ (p : Pool) (cells : ℕ → Cells) (held : List Ptr) (is : IsPool p cells held) where
  pub try_pop-IsPool :
      (id : ℕ) (c : Ptr × Ptr) (xs : Cells)
      → id < p.max_ids
      → cells id ≡ c ∷ xs
      → (p' : Pool) × (try_pop id p ≡ some (c.1, p'))
        × (c.1 ≢ null)
        × IsPool p' (put_at cells id xs) (c.1 ∷ held)
        × (p'.max_ids ≡ p.max_ids)
        × (p'.valid ≡ p.valid)
        × (p'.buffers ≡ p.buffers)
        × ((a : Ptr) → p.heap a ≡ none → p'.heap a ≡ none)
  unfolding occ
  try_pop-IsPool id c xs l e =
      let (q, g, run, queues, free) = try_pop-first p.max_ids p cells is.queues_are id l c xs e in
      (
        record p { heap = g; queues = put_at p.queues id q },
        run,
        λ z. absurd (
            ground (
              arith,
              z,
              is.no_null,
              is.once c.1,
              le_total (queued_at c.1) p.max_ids cells id l,
              ap (queued_at c.1) e,
            )),
        record {
          queues_are = queues;
          once = λ a. ground (
            arith,
            is.once a,
            total-put_at (queued_at a) p.max_ids cells id xs l,
            ap (queued_at a) e,
          );
          counted = omega (
            arith,
            is.counted,
            total-put_at (length {A = Ptr × Ptr}) p.max_ids cells id xs l,
            ap (length {A = Ptr × Ptr}) e,
          );
          bounded = is.bounded;
          no_null = is.no_null;
        },
        refl,
        refl,
        refl,
        free,
      )

  pub create-IsPool :
      (new : Ptr)
      → new ≢ null
      → p.buffers new ≡ none
      → p.elements < p.max_elements
      → (p' : Pool) × (create new p ≡ some (new, p'))
        × IsPool p' cells (new ∷ held)
        × (p'.max_ids ≡ p.max_ids)
        × (p'.valid ≡ p.valid)
        × ((a : Ptr) → a ≢ new → p'.buffers a ≡ p.buffers a)
        × (p'.heap ≡ p.heap)
  unfolding create occ
  create-IsPool new nn fresh room = (
    record p {
      buffers = put_at p.buffers new (some (extbuffer_init p.extbuffer_type));
      elements = p.elements + 1;
    },
    ground arith,
    record {
      queues_are = is.queues_are;
      once = λ a. ground (arith, is.once a, fresh);
      counted = omega (arith, is.counted);
      bounded = omega arith;
      no_null = ground (arith, is.no_null, nn);
    },
    refl,
    refl,
    λ a ne. ground (arith, ne),
    refl,
  )

  pub append-IsPool :
      (new_el id v : Ptr) (rest : List Ptr)
      → id < p.max_ids
      → new_el ≢ null
      → p.heap new_el ≡ none
      → ((a : Ptr) → occ a held ≡ occ a (v ∷ rest))
      → length held ≡ suc (length rest)
      → (p' : Pool) × (append new_el id v p ≡ some p')
        × IsPool p' (put_at cells id (cells id ++ (new_el, v) ∷ [])) rest
        × (p'.max_ids ≡ p.max_ids)
        × (p'.valid ≡ p.valid)
        × (p'.buffers ≡ p.buffers)
        × ((a : Ptr) → a ≢ new_el → p.heap a ≡ none → p'.heap a ≡ none)
  unfolding occ
  append-IsPool new_el id v rest l nn fresh gives less =
      let (q, g, run, queues, free) =
        append-last p.max_ids p cells is.queues_are id l new_el v nn fresh in
      (
        record p { heap = g; queues = put_at p.queues id q },
        run,
        record {
          queues_are = queues;
          once = λ a. omega (
            arith,
            is.once a,
            gives a,
            total-put_at (queued_at a) p.max_ids cells id (cells id ++ (new_el, v) ∷ []) l,
            queued_at-snoc a (cells id) new_el v,
          );
          counted = omega (
            arith,
            is.counted,
            total-put_at (length {A = Ptr × Ptr}) p.max_ids cells id (cells id ++ (new_el, v) ∷ [])
                l,
            length-append (cells id) ((new_el, v) ∷ []),
          );
          bounded = is.bounded;
          no_null = is.no_null;
        },
        refl,
        refl,
        refl,
        free,
      )
