-- ===== src/Power/Window.antt =====
-- The window functions of rtlsdrdevice.c, over the `double` of the platform.
use android_rtlpower.Base.{ℕ, ◌*◌, if◌then◌else◌}
use android_rtlpower.Base.Int.{ℤ, pos, ◌-ℤ◌, nat_abs}
use android_rtlpower.Double.{Double}

module _ (d : Double) where
  open d use {F, of_int, to_int, lit, add, sub, mul, div, neg, lt, cos, pow, m_pi, m_e}

  -- `cos(n*i*M_PI/N1)`
  cosine : (n i length : ℕ) → F
  cosine n i length = cos (div (mul (of_int (pos (n * i))) m_pi) (of_int (pos length -ℤ pos 1)))

  -- `pow(M_E, (-a*(double)abs((int)(N1-1-2*i)))/N1)`
  poisson : F → (i length : ℕ) → F
  poisson a i length =
      let n1 = of_int (pos length -ℤ pos 1) in
      let k = nat_abs (to_int (sub (sub n1 (lit 1 0)) (of_int (pos (2 * i))))) in
      pow m_e (div (mul (neg a) (of_int (pos k))) n1)

  pub rectangle : (i length : ℕ) → F
  rectangle i length = lit 1 0

  hamming : (i length : ℕ) → F
  unfolding cosine
  hamming i length =
      let a = div (lit 25 0) (lit 46 0) in
      let b = div (lit 21 0) (lit 46 0) in sub a (mul b (cosine 2 i length))

  blackman : (i length : ℕ) → F
  unfolding cosine
  blackman i length =
      let a0 = div (lit 7938 0) (lit 18608 0) in
      let a1 = div (lit 9240 0) (lit 18608 0) in
      let a2 = div (lit 1430 0) (lit 18608 0) in
      add (sub a0 (mul a1 (cosine 2 i length))) (mul a2 (cosine 4 i length))

  blackman_harris : (i length : ℕ) → F
  unfolding cosine
  blackman_harris i length =
      sub
        (add (sub (lit 35875 5) (mul (lit 48829 5) (cosine 2 i length)))
          (mul (lit 14128 5) (cosine 4 i length)))
        (mul (lit 1168 5) (cosine 6 i length))

  hann_poisson : (i length : ℕ) → F
  unfolding poisson
  hann_poisson i length =
      let n1 = of_int (pos length -ℤ pos 1) in
      let angle = div (mul (mul (of_int (pos 2)) m_pi) (of_int (pos i))) n1 in
      mul (mul (lit 5 1) (sub (of_int (pos 1)) (cos angle))) (poisson (lit 2 0) i length)

  youssef : (i length : ℕ) → F
  unfolding blackman_harris poisson
  youssef i length = mul (blackman_harris i length) (poisson (lit 25 4) i length)

  kaiser : (i length : ℕ) → F
  kaiser i length = lit 1 0

  bartlett : (i length : ℕ) → F
  bartlett i length =
      let l = of_int (pos length) in
      let n1 = sub l (of_int (pos 1)) in
      let two = of_int (pos 2) in
      let w = div (sub (of_int (pos i)) (div n1 two)) (div l two) in
      sub (of_int (pos 1)) (if lt w (of_int (pos 0)) then neg w else w)

  -- `window_coefs[i] = (int)(256*window_fn(i, length))`
  pub window_coef : ((i length : ℕ) → F) → (length i : ℕ) → ℤ
  window_coef window_fn length i = to_int (mul (of_int (pos 256)) (window_fn i length))

  -- `Sinewave[i] = (int)round(32767*sin(d))`, with `d = (double)i * 2.0 * M_PI / N_WAVE`
  pub sine_entry : (n_wave i : ℕ) → ℤ
  sine_entry n_wave i =
      let angle = div (mul (mul (of_int (pos i)) (lit 2 0)) m_pi) (of_int (pos n_wave)) in
      to_int (d.round (mul (of_int (pos 32767)) (d.sin angle)))
