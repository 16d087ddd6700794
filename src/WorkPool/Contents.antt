-- ===== src/WorkPool/Contents.antt =====
-- What the queues of a pool hold, and what one call of queue.c does to all of them.
use android_rtlpower.Base.{
  ℕ, ◌<◌, ◌≡◌, ◌≢◌, refl, sym, ap, fun_ext, ◌∙◌, Bool, true, false, none, some, [], ◌∷◌, ◌++◌,
  arith, ◌==◌, inl, inr, Bool-cases, if-false,
}
use android_rtlpower.Queue.{Ptr, null, Heap}
use android_rtlpower.Queue.Chain.{
  Cells, has, frame, Chain-nil, first-address, not-has_of_none, has-append, IsQueue,
}
use android_rtlpower.Queue.Pop.{pop_empty, pop_first_lem}
use android_rtlpower.Queue.Fifo.{queue_add-append}
use android_rtlpower.WorkPool.{Pool, put_at, try_pop, append, create}
use android_rtlpower.ExtBuffer.{extbuffer_init}
use mathlib.Core.Option.{some-injective}

IsQueue-frame :
    {h g : Heap} {q : Ptr} (xs : Cells)
    → IsQueue h q xs
    → ((a : Ptr) → has a xs ≡ true → g a ≡ h a)
    → IsQueue g q xs
IsQueue-frame [] s same = record {
  chain = frame s.chain same;
  tail = λ e at nz. absurd (nz (Chain-nil s.chain));
}
IsQueue-frame {h} {g} {q} (c ∷ xs) s same = record {
  chain = frame s.chain same;
  tail = λ e at nz. s.tail e (sym (same q mine) ∙ at) nz;
}
  where
    mine : has q (c ∷ xs) ≡ true
    mine = ground (arith, first-address s.chain)

-- The queues below `n`: each is a queue in the heap, and no two share an element.
pub record IsQueues (n : ℕ) (h : Heap) (queues : ℕ → Ptr) (cells : ℕ → Cells) : Type 0 where
  pub each : (i : ℕ) → i < n → IsQueue h (queues i) (cells i)
  pub apart :
      (i j : ℕ) (a : Ptr) → i < n → j < n → has a (cells i) ≡ true → has a (cells j) ≡ true → i ≡ j

pub put_at-same {ℓ} : {A : Type ℓ} (f : ℕ → A) (i : ℕ) → put_at f i (f i) ≡ f
put_at-same f i = fun_ext λ j. ground arith

module _ (n : ℕ) (h g : Heap) (queues : ℕ → Ptr) (cells : ℕ → Cells)
    (is : IsQueues n h queues cells) (id : ℕ) (lt : id < n) where
  -- One queue is changed; the heap is the same at the elements of all others.
  IsQueues-change :
      (q : Ptr) (ys : Cells)
      → IsQueue g q ys
      → ((j : ℕ) (a : Ptr)
          → j < n
          → j ≢ id
          → has a (cells j) ≡ true
          → (g a ≡ h a) × (has a ys ≡ false))
      → IsQueues n g (put_at queues id q) (put_at cells id ys)
  IsQueues-change q ys s others = record {
    each = λ i l. elim (Bool-cases (i == id)) [
      | inl hit ↦ rw hit s
      | inr miss ↦
          rw miss (
            IsQueue-frame (cells i) (is.each i l)
              (λ a m. (others i a l (ground (arith, miss)) m).0))
    ];
    apart = λ i j a l k x y. elim (Bool-cases (i == id)) [
      | inl hit ↦ elim (Bool-cases (j == id)) [
        | inl both ↦ ground (arith, hit, both)
        | inr miss ↦ absurd (clash j a k (ground (arith, miss)) (rw hit at x) (rw miss at y))
      ]
      | inr miss ↦ elim (Bool-cases (j == id)) [
        | inl hit ↦ absurd (clash i a l (ground (arith, miss)) (rw hit at y) (rw miss at x))
        | inr neither ↦ is.apart i j a l k (rw miss at x) (rw neither at y)
      ]
    ];
  }
    where
      clash : (j : ℕ) (a : Ptr) → j < n → j ≢ id → has a ys ≡ true → ¬ (has a (cells j) ≡ true)
      clash j a l ne mine x = ground (arith, mine, (others j a l ne x).1)

module _ (n : ℕ) (p : Pool) (cells : ℕ → Cells) (is : IsQueues n p.heap p.queues cells) (id : ℕ)
    (h : id < n) where
  elsewhere :
      (j : ℕ) (a : Ptr)
      → j < n
      → j ≢ id
      → (b : Bool) → has a (cells id) ≡ b
      → has a (cells j) ≡ true
      → b ≡ false
  elsewhere j a l ne true e m = absurd (ne (is.apart j id a l h m e))
  elsewhere j a l ne false e m = refl

  pub try_pop-empty : cells id ≡ [] → try_pop id p ≡ some (null, p)
  unfolding try_pop
  try_pop-empty e =
      rw (pop_empty (rw e at (is.each id h)))
        (ap (λ qs. some (null, record p { queues = qs })) (put_at-same p.queues id))

  pub try_pop-first :
      (c : Ptr × Ptr) (xs : Cells)
      → cells id ≡ c ∷ xs
      → (q : Ptr) × (g : Heap) × (try_pop id p
          ≡ some (c.1, record p { heap = g; queues = put_at p.queues id q }))
        × IsQueues n g (put_at p.queues id q) (put_at cells id xs)
        × ((a : Ptr) → p.heap a ≡ none → g a ≡ none)
  unfolding try_pop
  try_pop-first c xs e =
      let s : IsQueue p.heap (p.queues id) (c ∷ xs) = rw e at (is.each id h) in
      let (q, g, run, rest, gone, same) = pop_first_lem c xs s in
      (
        q,
        g,
        rw run,
        IsQueues-change n p.heap g p.queues cells is id h q xs rest (λ j a l ne m.
            let out : has a (c ∷ xs) ≡ false =
              elsewhere j a l ne (has a (c ∷ xs)) (ap (has a) e) m in
            (
              same a (ground (arith, out, first-address s.chain)) (ground (arith, out)),
              ground (arith, out),
            )),
        λ a free.
            let out = not-has_of_none a s.chain free in
            same a (ground (arith, out, first-address s.chain)) (ground (arith, out)) ∙ free,
      )

  pub append-last :
      (new v : Ptr)
      → new ≢ null
      → p.heap new ≡ none
      → (q : Ptr) × (g : Heap) × (append new id v p
          ≡ some (record p { heap = g; queues = put_at p.queues id q }))
        × IsQueues n g (put_at p.queues id q) (put_at cells id (cells id ++ (new, v) ∷ []))
        × ((a : Ptr) → a ≢ new → p.heap a ≡ none → g a ≡ none)
  unfolding append
  append-last new v nn fresh =
      let (q, g, run, rest, same) = queue_add-append (cells id) new v (is.each id h) nn fresh in
      (
        q,
        g,
        rw run,
        IsQueues-change n p.heap g p.queues cells is id h q (cells id ++ (new, v) ∷ []) rest
            (λ j a l ne m.
              let out : has a (cells id) ≡ false = elsewhere j a l ne (has a (cells id)) refl m in
              let other : a ≢ new =
                ground (arith, m, not-has_of_none new (is.each j l).chain fresh) in
              (
                same a other out,
                rw (has-append a (cells id) ((new, v) ∷ [])) (ground (arith, out, other)),
              )),
        λ a other free. same a other (not-has_of_none a (is.each id h).chain free) ∙ free,
      )

-- A buffer that has been made is an empty one.
pub create-buffer :
    (new : Ptr) (p q : Pool)
    → new ≢ null
    → create new p ≡ some (new, q)
    → q.buffers new ≡ some (extbuffer_init p.extbuffer_type)
unfolding create
create-buffer new p q nn run =
    ap (λ (t : Ptr × Pool). t.1.buffers new)
      (sym (some-injective _ (new, q) (sym (if-false _ _ (not_null nn)) ∙ run)))
    ∙ ground arith
  where
    not_null : new ≢ null → (new == null) ≡ false
    not_null h = ground (arith, h)
