-- ===== src/Queue/Chain.antt =====
-- The elements of a queue in the heap: what a chain of `next` and `prev` pointers is, and which
-- writes keep it.
use android_rtlpower.Base.{
  ◌≡◌, refl, ◌≢◌, Bool, true, false, ◌||◌, Option, none, some, List, [], ◌∷◌, ◌++◌, arith, ◌==◌,
  inl, inr, Bool-cases as cases,
}
use android_rtlpower.Queue.{Ptr, null, Element, Heap, write}

-- address and payload of each element, first to last
abbrev pub Cells : Type 0
Cells = List (Ptr × Ptr)

abbrev pub has : Ptr → Cells → Bool
has a [] = false
has a ((p, _) ∷ xs) = (a == p) || has a xs

-- the address of the last element, `d` if there is none
abbrev pub last_of : Ptr → Cells → Ptr
last_of d [] = d
last_of d ((p, _) ∷ xs) = last_of p xs

-- From `p` on, the `next` pointers lead through the distinct elements `xs` to NULL, and each
-- `prev` pointer leads back; that of the first is `back`.
pub data Chain (h : Heap) : (back p : Ptr) → Cells → Type 0 where
  nil : {back p : Ptr} → p ≡ null → Chain h back p []
  cons :
      {back p : Ptr} {v : Ptr} {xs : Cells} (e : Element)
      → p ≢ null
      → h p ≡ some e
      → e.prev ≡ back
      → e.payload ≡ v
      → has p xs ≡ false
      → Chain h p e.next xs
      → Chain h back p ((p, v) ∷ xs)

pub has-append :
    (p : Ptr) (front back : Cells) → has p (front ++ back) ≡ (has p front || has p back)
has-append p [] back = refl
has-append p ((q, v) ∷ front) back = ground (arith, has-append p front back)

pub has-last_of : (p v : Ptr) (xs : Cells) → has (last_of p xs) ((p, v) ∷ xs) ≡ true
has-last_of p v [] = ground arith
has-last_of p v ((q, w) ∷ xs) = ground (arith, has-last_of q w xs)

module _ {h : Heap} where
  -- A chain survives any change that spares the links and payloads of its own elements.
  pub frame :
      {g : Heap} {back p : Ptr} {xs : Cells}
      → Chain h back p xs
      → ((a : Ptr) → has a xs ≡ true → g a ≡ h a)
      → Chain g back p xs
  frame (nil z) same = nil z
  frame (cons {p} e nz at pr pl out rest) same =
      cons e nz (ground (arith, same p)) pr pl out (frame rest λ a i. same a (ground arith))

  pub frame-write :
      {back p : Ptr} {xs : Cells} (a : Ptr) (c : Option Element)
      → Chain h back p xs
      → has a xs ≡ false
      → Chain (write h a c) back p xs
  unfolding write
  frame-write a c s out = frame s λ b i. ground arith

  -- The `last` pointers take no part in it.
  pub Chain-set_last :
      {back p : Ptr} {xs : Cells} (a l : Ptr) (e : Element)
      → h a ≡ some e
      → Chain h back p xs
      → Chain (write h a (some (record e { last = l }))) back p xs
  unfolding write
  Chain-set_last a l e at (nil z) = nil z
  Chain-set_last a l e at (cons {p} f nz pt pr pl out rest) = elim (cases (p == a)) [
    | inl hit ↦
        cons (record f { last = l }) nz (ground arith) pr pl out (Chain-set_last a l e at rest)
    | inr miss ↦ cons f nz (ground arith) pr pl out (Chain-set_last a l e at rest)
  ]

  pub not-has_of_none :
      {back p : Ptr} {xs : Cells} (a : Ptr) → Chain h back p xs → h a ≡ none → has a xs ≡ false
  not-has_of_none a (nil z) unused = refl
  not-has_of_none a (cons e nz at pr pl out rest) unused =
      ground (arith, not-has_of_none a rest unused)

  pub last_of-allocated :
      {back q : Ptr} (c : Ptr × Ptr) (xs : Cells)
      → Chain h back q (c ∷ xs)
      → (e : Element) × (h (last_of null (c ∷ xs)) ≡ some e)
  last_of-allocated c [] (cons e nz at pr pl out rest) = (e, at)
  last_of-allocated c (d ∷ xs) (cons e nz at pr pl out rest) = last_of-allocated d xs rest

  pub last_of-ne-null :
      {back q : Ptr} (c : Ptr × Ptr) (xs : Cells)
      → Chain h back q (c ∷ xs)
      → last_of null (c ∷ xs) ≢ null
  last_of-ne-null c [] (cons e nz at pr pl out rest) = nz
  last_of-ne-null c (d ∷ xs) (cons e nz at pr pl out rest) = last_of-ne-null d xs rest

  -- The last element is linked to a new one.
  pub Chain-append :
      {back q : Ptr} (c : Ptr × Ptr) (xs : Cells) (new v : Ptr) (e n : Element)
      → Chain h back q (c ∷ xs)
      → h (last_of null (c ∷ xs)) ≡ some e
      → h new ≡ some n
      → n.next ≡ null
      → n.prev ≡ last_of null (c ∷ xs)
      → n.payload ≡ v
      → new ≢ null
      → has new (c ∷ xs) ≡ false
      → Chain
          (write h (last_of null (c ∷ xs)) (some (record e { next = new })))
          back
          q
          ((c ∷ xs) ++ (new, v) ∷ [])
  unfolding write
  Chain-append c [] new v e n (cons f nz at pr pl out rest) le ne z back pay nn fresh =
      cons (record e { next = new }) nz (ground arith) (ground arith) (ground arith) (ground arith)
        (cons n nn (ground arith) back pay refl (nil z))
  Chain-append c (d ∷ xs) new v e n (cons f nz at pr pl out rest) le ne z back pay nn fresh =
      cons f nz (ground (arith, has-last_of d.0 d.1 xs)) pr pl
        (rw (has-append c.0 (d ∷ xs) ((new, v) ∷ [])) (ground arith))
        (Chain-append d xs new v e n rest le ne z back pay nn (ground arith))

pub Chain-nil : {h : Heap} {back q : Ptr} → Chain h back q [] → q ≡ null
Chain-nil (nil z) = z

pub first-allocated :
    {h : Heap} {back q : Ptr} {c : Ptr × Ptr} {xs : Cells}
    → Chain h back q (c ∷ xs)
    → (e : Element) × (h q ≡ some e) × (q ≢ null)
first-allocated (cons e nz at pr pl out rest) = (e, at, nz)

pub first-address :
    {h : Heap} {back q : Ptr} {c : Ptr × Ptr} {xs : Cells} → Chain h back q (c ∷ xs) → q ≡ c.0
first-address (cons e nz at pr pl out rest) = refl

-- The queue whose first element is at `q` holds `xs`. Only the first element's `last` is kept up.
pub record IsQueue (h : Heap) (q : Ptr) (xs : Cells) : Type 0 where
  pub chain : Chain h null q xs
  pub tail : (e : Element) → h q ≡ some e → q ≢ null → e.last ≡ last_of null xs

-- outside `xs` and `a` nothing changes
abbrev pub SameOutside : Ptr → Cells → Heap → Heap → Type 0
SameOutside a xs h g = (b : Ptr) → b ≢ a → has b xs ≡ false → g b ≡ h b
