-- ===== src/SdrTcp/Pipeline/Packets.antt =====
-- Where the packets of samples are: sent, in a thread's hands, or in the queue of stage 1.

use android_rtlpower.Base.{
  ℕ, ◌<◌, ◌≤◌, ◌+◌, ◌≡◌, ◌≢◌, refl, sym, ap, ◌∙◌, true, none, some, List, [], ◌∷◌, suc, ◌++◌, map,
  append_assoc, append-nil, length, arith,
}
use android_rtlpower.Queue.{Ptr}
use android_rtlpower.Queue.Chain.{Cells}
use android_rtlpower.Queue.Fifo.{payloads}
use android_rtlpower.ExtBuffer.{ExtBuffer}
use android_rtlpower.WorkPool.{Pool, put_at}
use android_rtlpower.WorkPool.Invariant.{occ, le_total, queued_at, IsPool}
use android_rtlpower.SdrTcp.Pipeline.{bytes_of, data_at, data_of, Feeding, Serving, Line}

abbrev pub feeder_holds : Feeding → List Ptr
feeder_holds Feeding.idle = []
feeder_holds (Feeding.empty v) = v ∷ []
feeder_holds (Feeding.full v buf) = v ∷ []

abbrev pub server_holds : Serving → List Ptr
server_holds Serving.idle = []
server_holds (Serving.unsent v) = v ∷ []
server_holds (Serving.sent v) = v ∷ []

abbrev pub holds : Feeding → Serving → List Ptr
holds x y = feeder_holds x ++ server_holds y

-- The buffers of a queue hold these packets.
pub data Queued (p : Pool) : Cells → List (List ℕ) → Type 0 where
  none_queued : Queued p [] []
  one_queued :
      {c : Ptr × Ptr} {xs : Cells} {packet : List ℕ} {packets : List (List ℕ)}
      → data_at p c.1 ≡ some packet
      → Queued p xs packets
      → Queued p (c ∷ xs) (packet ∷ packets)

-- what the feeding thread has filled is in its buffer
abbrev pub FeederHas : Pool → Feeding → Type 0
FeederHas p Feeding.idle = Unit
FeederHas p (Feeding.empty v) = Unit
FeederHas p (Feeding.full v buf) = data_at p v ≡ some (bytes_of buf)

-- the packets, one or none, that the serving thread has taken and not sent
abbrev pub ServerHas : Pool → Serving → List (List ℕ) → Type 0
ServerHas p Serving.idle current = current ≡ []
ServerHas p (Serving.unsent v) current =
    (packet : List ℕ) × (data_at p v ≡ some packet) × (current ≡ packet ∷ [])
ServerHas p (Serving.sent v) current = current ≡ []

unfoldable pub concat : List (List ℕ) → List ℕ
concat [] = []
concat (packet ∷ packets) = packet ++ concat packets

-- What has been fed is what has been sent, then what the serving thread has in hand, then what waits
-- in the queue of stage 1; the wire holds what has been sent.
pub record IsLine (f : Line) : Type 0 where
  pub cells : ℕ → Cells
  pub pool_is : IsPool f.pool cells (holds f.feeding f.serving)
  pub valid : f.pool.valid ≡ true
  pub two : f.pool.max_ids ≡ 2
  -- the addresses from `free` on are not in use
  pub free : ℕ
  pub unused : (a : Ptr) → free ≤ a → f.pool.heap a ≡ none
  pub packets : List (List ℕ)
  pub current : List (List ℕ)
  pub waiting : List (List ℕ)
  pub wire_is : f.wire ≡ concat packets
  pub order : map bytes_of f.fed ≡ packets ++ (current ++ waiting)
  pub queue : Queued f.pool (cells 1) waiting
  pub feeder : FeederHas f.pool f.feeding
  pub server : ServerHas f.pool f.serving current

module _ (p q : Pool) where
  pub Queued-frame :
      {xs : Cells} {packets : List (List ℕ)}
      → Queued p xs packets
      → ((a : Ptr) → 0 < occ a (payloads xs) → q.buffers a ≡ p.buffers a)
      → Queued q xs packets
  unfolding occ
  Queued-frame none_queued same = none_queued
  Queued-frame (one_queued {c} at rest) same =
      one_queued (ap data_of (same c.1 (ground arith)) ∙ at)
        (Queued-frame rest λ a h. same a (omega arith))

  pub FeederHas-frame :
      (x : Feeding)
      → FeederHas p x
      → ((a : Ptr) → 0 < occ a (feeder_holds x) → q.buffers a ≡ p.buffers a)
      → FeederHas q x
  unfolding occ
  FeederHas-frame Feeding.idle has same = tt
  FeederHas-frame (Feeding.empty v) has same = tt
  FeederHas-frame (Feeding.full v buf) has same = ap data_of (same v (ground arith)) ∙ has

  pub ServerHas-frame :
      (y : Serving) (current : List (List ℕ))
      → ServerHas p y current
      → ((a : Ptr) → 0 < occ a (server_holds y) → q.buffers a ≡ p.buffers a)
      → ServerHas q y current
  unfolding occ
  ServerHas-frame Serving.idle current has same = has
  ServerHas-frame (Serving.unsent v) current (packet, at, one) same =
      (packet, ap data_of (same v (ground arith)) ∙ at, one)
  ServerHas-frame (Serving.sent v) current has same = has

pub Queued-snoc :
    {p : Pool} {xs : Cells} {packets : List (List ℕ)} (c : Ptr × Ptr) (packet : List ℕ)
    → Queued p xs packets
    → data_at p c.1 ≡ some packet
    → Queued p (xs ++ c ∷ []) (packets ++ packet ∷ [])
Queued-snoc c packet none_queued at = one_queued at none_queued
Queued-snoc c packet (one_queued at' rest) at = one_queued at' (Queued-snoc c packet rest at)

pub Queued-first :
    {p : Pool} {c : Ptr × Ptr} {xs : Cells} {packets : List (List ℕ)}
    → Queued p (c ∷ xs) packets
    → (packet : List ℕ) × (rest : List (List ℕ)) × (packets ≡ packet ∷ rest)
      × (data_at p c.1 ≡ some packet)
      × Queued p xs rest
Queued-first (one_queued {packet} {packets} at rest) = (packet, packets, refl, at, rest)

pub Queued-cons :
    {p : Pool} {packet : List ℕ} {rest : List (List ℕ)} (xs : Cells)
    → Queued p xs (packet ∷ rest)
    → (c : Ptr × Ptr) × (ys : Cells) × (xs ≡ c ∷ ys)
Queued-cons [] waits = elim waits [ ]
Queued-cons (c ∷ ys) (one_queued at rest) = (c, ys, refl)

pub Queued-length :
    {p : Pool} {xs : Cells} {packets : List (List ℕ)}
    → Queued p xs packets
    → length packets ≡ length xs
Queued-length none_queued = refl
Queued-length (one_queued at rest) = ap suc (Queued-length rest)

pub concat-snoc :
    (packets : List (List ℕ)) (packet : List ℕ)
    → concat (packets ++ packet ∷ []) ≡ concat packets ++ packet
unfolding concat
concat-snoc [] packet = append-nil packet
concat-snoc (x ∷ packets) packet =
    ap (λ r. x ++ r) (concat-snoc packets packet) ∙ sym (append_assoc x (concat packets) packet)

-- A buffer that a thread holds is not in a queue.
module _ (p : Pool) (cells : ℕ → Cells) (held : List Ptr) (is : IsPool p cells held)
    (two : p.max_ids ≡ 2) where
  pub reheld :
      (held' : List Ptr)
      → ((a : Ptr) → occ a held ≡ occ a held')
      → length held ≡ length held'
      → IsPool p cells held'
  reheld held' same long = record {
    queues_are = is.queues_are;
    once = λ a. omega (arith, is.once a, same a);
    counted = omega (arith, is.counted, long);
    bounded = is.bounded;
    no_null = is.no_null;
  }

  pub absent : (a : Ptr) → p.buffers a ≡ none → (occ a (payloads (cells 1)) ≡ 0) × (occ a held ≡ 0)
  absent a none_there =
      let nowhere = is.once a in
      let queued = le_total (queued_at a) p.max_ids cells 1 (omega (arith, two)) in
      (ground (arith, nowhere, queued, none_there), ground (arith, nowhere, none_there))

pub behind : (free new a : Ptr) → free + suc new ≤ a → a ≢ new
behind free new a h e = absurd (omega arith)

pub apart : (xs : List Ptr) (new : Ptr) → occ new xs ≡ 0 → (a : Ptr) → 0 < occ a xs → a ≢ new
apart xs new nowhere a h e = absurd (omega (arith, ap (λ x. occ x xs) e))

-- A buffer that a thread holds is held once, and is in no queue.
pub alone :
    (p : Pool) (cells : ℕ → Cells) (v : Ptr) (rest : List Ptr)
    → IsPool p cells (v ∷ rest)
    → p.max_ids ≡ 2
    → (occ v (payloads (cells 1)) ≡ 0) × (occ v rest ≡ 0)
unfolding occ
alone p cells v rest is two =
    let once = is.once v in
    let queued = le_total (queued_at v) p.max_ids cells 1 (omega (arith, two)) in
    (ground (arith, once, queued), ground (arith, once))

pub refilled :
    (p : Pool) (cells : ℕ → Cells) (held : List Ptr) (v : Ptr) (b c : ExtBuffer)
    → IsPool p cells held
    → p.buffers v ≡ some b
    → IsPool (record p { buffers = put_at p.buffers v (some c) }) cells held
refilled p cells held v b c is was = record {
  queues_are = is.queues_are;
  once = λ a. ground (arith, is.once a, was);
  counted = is.counted;
  bounded = is.bounded;
  no_null = ground (arith, is.no_null, was);
}
