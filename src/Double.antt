-- ===== src/Double.antt =====
-- The C type `double` with the operations of the language and of libm that rtlsdrdevice.c calls.
-- Floating point is not modelled: the type and its operations are a parameter, and a theorem that
-- relies on arithmetic names what it relies on.
pub mod Exact
use android_rtlpower.Base.{ℕ, Bool, List}
use android_rtlpower.Base.Int.{ℤ}

pub record Double : Type 1 where
  pub F : Type 0
  -- `(double) n`
  pub of_int : ℤ → F
  -- `(int) x` and `(long) x`
  pub to_int : F → ℤ
  -- the literal m / 10^e
  pub lit : ℕ → ℕ → F
  pub add : F → F → F
  pub sub : F → F → F
  pub mul : F → F → F
  pub div : F → F → F
  pub neg : F → F
  pub lt : F → F → Bool
  pub le : F → F → Bool
  pub round : F → F
  pub sin : F → F
  pub cos : F → F
  pub log2 : F → F
  pub log10 : F → F
  pub pow : F → F → F
  pub m_pi : F
  pub m_e : F
  -- `atof`, of the bytes of a string
  pub atof : List ℕ → F
