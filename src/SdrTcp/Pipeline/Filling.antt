-- ===== src/SdrTcp/Pipeline/Filling.antt =====
-- A buffer that is filled with samples holds their bytes.
use android_rtlpower.Base.{
  ◌<◌, ◌≡◌, refl, ap, ◌∙◌, sym, true, ◌∷◌, Option, none, some, if-true, length-append, List, [],
  ◌++◌, length, drop, arith, leb, take-append, inl, inr, Bool-cases,
}
use mathlib.Core.Path.{ap₂}
use mathlib.Core.Option.{some-injective}
use android_rtlpower.Base.Int.{ℤ, pos, to_int32, to_int32_fits}
use android_rtlpower.ExtBuffer.{ExtBuffer, Memory, extbuffer_preparetohandle}
use android_rtlpower.ExtBuffer.Sized.{prepare-HasSize}
use android_rtlpower.Queue.{Ptr}
use android_rtlpower.WorkPool.{Pool, put_at}
use android_rtlpower.SdrTcp.Pipeline.{
  bytes_of, data_to_send, copy_in, copy_block, read_block, with_filled, fill_if, fill_at, and_copy,
  fill,
}

fits : (buf ys : List ℤ) → leb (length buf) (length (buf ++ ys)) ≡ true
fits buf ys = ground (arith, length-append buf ys)

read_front : (buf ys : List ℤ) → read_block (length buf) (some (buf ++ ys)) ≡ some (bytes_of buf)
unfolding read_block
read_front buf ys = if-true _ _ (fits buf ys) ∙ ap (λ xs. some (bytes_of xs)) (take-append buf ys)

-- A block that has been written to holds what was written.
copied :
    (buf : List ℤ) (b c : ExtBuffer) (block : Option (List ℤ))
    → b.ushortbuffer ≡ block
    → b.size_valid_elements ≡ length buf
    → copy_block buf b block ≡ some c
    → data_to_send c ≡ some (bytes_of buf)
unfolding copy_block data_to_send
copied [] b c none e size run =
    ap data_to_send (sym (some-injective b c run)) ∙ ap₂ read_block size e
copied (x ∷ buf) b c none e size run = absurd (ground (arith, run))
copied buf b c (some xs) e size run = elim (Bool-cases (leb (length buf) (length xs))) [
  | inl room ↦
      ap data_to_send (sym (some-injective _ c (sym (if-true _ _ room) ∙ run)))
      ∙ ap (λ n. read_block n (some (buf ++ drop (length buf) xs))) size
      ∙ read_front buf (drop (length buf) xs)
  | inr short ↦ absurd (ground (arith, run, short))
]

pub whole :
    (buf : List ℤ) → length buf < 0x8000_0000 → to_int32 (pos (length buf)) ≡ pos (length buf)
whole buf h = to_int32_fits (pos (length buf)) (omega arith) (omega arith)

copy-data :
    (buf : List ℤ) (o : Option ExtBuffer) (c : ExtBuffer)
    → ((b : ExtBuffer) → o ≡ some b → b.size_valid_elements ≡ length buf)
    → and_copy buf o ≡ some c
    → data_to_send c ≡ some (bytes_of buf)
unfolding copy_in
copy-data buf none c sized run = absurd (ground (arith, run))
copy-data buf (some b) c sized run = copied buf b c b.ushortbuffer refl (sized b refl) run

pub fill-data :
    (m : Memory) (buf : List ℤ) (b c : ExtBuffer)
    → length buf < 0x8000_0000
    → fill m buf b ≡ some c
    → data_to_send c ≡ some (bytes_of buf)
unfolding fill
fill-data m buf b c h run =
    copy-data buf (extbuffer_preparetohandle m b (to_int32 (pos (length buf)))) c
      (λ g e.
        prepare-HasSize m b g (length buf)
          (sym (ap (extbuffer_preparetohandle m b) (whole buf h)) ∙ e))
      run

-- `q` is `p` with another buffer at `v`, which holds the bytes of `buf`.
pub record IsFilled (buf : List ℤ) (v : Ptr) (p q : Pool) : Type 0 where
  pub before : ExtBuffer
  pub after : ExtBuffer
  pub was : p.buffers v ≡ some before
  pub is_now : q ≡ record p { buffers = put_at p.buffers v (some after) }
  pub holds : data_to_send after ≡ some (bytes_of buf)

module _ (m : Memory) (buf : List ℤ) (small : length buf < 0x8000_0000) (v : Ptr) (p q : Pool) where
  with_filled-IsFilled :
      (b : ExtBuffer)
      → p.buffers v ≡ some b
      → (o : Option ExtBuffer) → fill m buf b ≡ o
      → with_filled p v o ≡ some q
      → IsFilled buf v p q
  with_filled-IsFilled b was none e run = absurd (ground (arith, run))
  with_filled-IsFilled b was (some c) e run = record {
    before = b;
    after = c;
    was = was;
    is_now = sym (some-injective _ q run);
    holds = fill-data m buf b c small e;
  }

  fill_if-IsFilled :
      (o : Option ExtBuffer)
      → p.buffers v ≡ o
      → with_filled p v (fill_if m buf o) ≡ some q
      → IsFilled buf v p q
  fill_if-IsFilled none was run = absurd (ground (arith, run))
  fill_if-IsFilled (some b) was run = with_filled-IsFilled b was (fill m buf b) refl run

  pub fill_at-IsFilled : fill_at m buf v p ≡ some q → IsFilled buf v p q
  unfolding fill_at
  fill_at-IsFilled run = fill_if-IsFilled (p.buffers v) refl run
