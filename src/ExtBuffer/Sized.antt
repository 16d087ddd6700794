-- ===== src/ExtBuffer/Sized.antt =====
-- The number of elements that `extbuffer_preparetohandle` records, whatever the allocator does, and
-- the type of the buffer, which it keeps.
use android_rtlpower.Base.{
  ℕ, zero, suc, ◌≡◌, refl, ap, ◌∙◌, sym, Bool, true, false, Option, none, some, List, arith, inl,
  inr, Bool-cases, ltb, if◌then◌else◌, if-true, if-false,
}
use mathlib.Core.Option.{some-injective}
use android_rtlpower.Base.Int.{ℤ, pos, leb_ℤ}
use android_rtlpower.ExtBuffer.{
  BufferType, ExtBuffer, Memory, buffer, grow_block, with_buffer, cleared, clear_block,
  clear_if_asked, zero_loop, grow, prepare_positive, extbuffer_preparetohandle,
}

abbrev HasSize : ℕ → Option ExtBuffer → Type 0
HasSize n o = (c : ExtBuffer) → o ≡ some c → c.size_valid_elements ≡ n

size_of : (b c : ExtBuffer) → some b ≡ some c → c.size_valid_elements ≡ b.size_valid_elements
size_of b c e = ap (λ (x : ExtBuffer). x.size_valid_elements) (sym (some-injective b c e))

cleared-HasSize :
    (g : ExtBuffer) (o : Option (List ℤ)) → HasSize g.size_valid_elements (cleared g o)
unfolding cleared
cleared-HasSize g none c e = absurd (ground (arith, e))
cleared-HasSize g (some ys) c e = size_of _ c e ∙ ground arith

clear_block-HasSize :
    (g : ExtBuffer) (o : Option (List ℤ)) → HasSize g.size_valid_elements (clear_block g o)
unfolding clear_block
clear_block-HasSize g none c e = absurd (ground (arith, e))
clear_block-HasSize g (some xs) c e = cleared-HasSize g (zero_loop g.size_valid_elements 0 xs) c e

clear_if_asked-HasSize : (g : ExtBuffer) → HasSize g.size_valid_elements (clear_if_asked g)
unfolding clear_if_asked
clear_if_asked-HasSize g c e = elim (Bool-cases g.cleartozero) [
  | inl on ↦ clear_block-HasSize g (buffer g) c (sym (if-true _ _ on) ∙ e)
  | inr off ↦ size_of g c (sym (if-false _ _ off) ∙ e)
]

pub prepare-HasSize :
    (m : Memory) (b c : ExtBuffer) (n : ℕ)
    → extbuffer_preparetohandle m b (pos n) ≡ some c
    → c.size_valid_elements ≡ n
unfolding extbuffer_preparetohandle prepare_positive
prepare-HasSize m b c zero e = size_of (record b { size_valid_elements = 0 }) c e
prepare-HasSize m b c (suc n) e =
    clear_if_asked-HasSize
      (record (if ltb b.buffer_max_size (suc n) then grow m b (suc n) else b) {
        size_valid_elements = suc n;
      })
      c (sym (if-false {b = leb_ℤ (pos (suc n)) (pos 0)} _ _ (ground arith)) ∙ e)

abbrev HasType : BufferType → Option ExtBuffer → Type 0
HasType t o = (c : ExtBuffer) → o ≡ some c → c.buffer_type ≡ t

type_of : (b c : ExtBuffer) → some b ≡ some c → c.buffer_type ≡ b.buffer_type
type_of b c e = ap (λ (x : ExtBuffer). x.buffer_type) (sym (some-injective b c e))

with_buffer-type :
    (g : ExtBuffer) (o : Option (List ℤ)) → (with_buffer g o).buffer_type ≡ g.buffer_type
with_buffer-type g o = ground arith

cleared-HasType : (g : ExtBuffer) (o : Option (List ℤ)) → HasType g.buffer_type (cleared g o)
unfolding cleared
cleared-HasType g none c e = absurd (ground (arith, e))
cleared-HasType g (some ys) c e = type_of _ c e ∙ with_buffer-type g (some ys)

clear_if_asked-HasType : (g : ExtBuffer) → HasType g.buffer_type (clear_if_asked g)
unfolding clear_if_asked clear_block
clear_if_asked-HasType g c e = elim (Bool-cases g.cleartozero) [
  | inl on ↦ in_block (buffer g) (sym (if-true _ _ on) ∙ e)
  | inr off ↦ type_of g c (sym (if-false _ _ off) ∙ e)
]
  where
    in_block : (o : Option (List ℤ)) → clear_block g o ≡ some c → c.buffer_type ≡ g.buffer_type
    in_block none e = absurd (ground (arith, e))
    in_block (some xs) e = cleared-HasType g (zero_loop g.size_valid_elements 0 xs) c e

grow-type : (m : Memory) (b : ExtBuffer) (n : ℕ) → (grow m b n).buffer_type ≡ b.buffer_type
unfolding grow grow_block
grow-type m b n = ground arith

pub prepare-HasType :
    (m : Memory) (b c : ExtBuffer) (n : ℕ)
    → extbuffer_preparetohandle m b (pos n) ≡ some c
    → c.buffer_type ≡ b.buffer_type
unfolding extbuffer_preparetohandle prepare_positive
prepare-HasType m b c zero e = type_of (record b { size_valid_elements = 0 }) c e
prepare-HasType m b c (suc n) e =
    clear_if_asked-HasType
      (record (if ltb b.buffer_max_size (suc n) then grow m b (suc n) else b) {
        size_valid_elements = suc n;
      })
      c (sym (if-false {b = leb_ℤ (pos (suc n)) (pos 0)} _ _ (ground arith)) ∙ e)
    ∙ kept (ltb b.buffer_max_size (suc n))
  where
    kept : (t : Bool) → (if t then grow m b (suc n) else b).buffer_type ≡ b.buffer_type
    kept true = grow-type m b (suc n)
    kept false = refl
