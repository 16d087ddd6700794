-- ===== src/Device/Commands.antt =====
-- The TCP commands that have an effect are the ones that `SUPPORTED_COMMANDS` announces.
use android_rtlpower.Base.{
  ℕ, ◌<◌, ◌≡◌, refl, sym, ap, ◌∙◌, Bool, true, false, ◌||◌, some, List, [], ◌∷◌, ◌++◌, length,
  arith, inl, inr, Bool-cases, if-true, if-false, ◌==◌, ltb, ◌&&◌, ltb→lt,
}
use android_rtlpower.Base.Int.{ℤ, pos, ltb_ℤ, to_uint32}
use android_rtlpower.Device.{
  Driver, Call, Log, Run, call, get_tuner_gains, count_tuner_gains, set_tuner_gain, set_gain_if,
  set_gain_by_index, set_gain_by_perc, cases, switch, supported_commands, tcp_command_callback,
}
use android_rtlpower.Device.Gains.{IsHonest, set_gain_entry-some, set_gain_by_perc-some}

abbrev pub has : ℕ → List ℕ → Bool
has n [] = false
has n (m ∷ ms) = (n == m) || has n ms

abbrev pub is_some_call : List Call → Bool
is_some_call [] = false
is_some_call (c ∷ cs) = true

-- the run does not fault and makes at least one call
abbrev Calls : Run ℤ → Log → Type 0
Calls run log = (r : ℤ) × (c : Call) × (cs : List Call) × (run log ≡ some (r, c ∷ cs ++ log))

-- so does each case of the table
data AllCall (log : Log) : List (ℕ × Run ℤ) → Type 0 where
  none_left : AllCall log []
  and_more :
      {code : ℕ} {run : Run ℤ} {others : List (ℕ × Run ℤ)}
      → Calls run log
      → AllCall log others
      → AllCall log ((code, run) ∷ others)

abbrev codes : List (ℕ × Run ℤ) → List ℕ
codes [] = []
codes ((code, run) ∷ others) = code ∷ codes others

module _ (d : Driver) where
  call-Calls : (c : Call) (log : Log) → Calls (call d c) log
  unfolding call
  call-Calls c log = (d.answer log c, c, [], refl)

  switch-codes :
      (command : ℕ) (table : List (ℕ × Run ℤ)) (log : Log)
      → AllCall log table
      → (made : List Call) × (switch d command table log ≡ some (made ++ log))
        × (has command (codes table) ≡ is_some_call made)
  unfolding switch
  switch-codes command [] log all = ([], refl, refl)
  switch-codes command ((code, run) ∷ others) log (and_more (r, c, cs, e) rest) =
      elim (Bool-cases (command == code)) [
        | inl hit ↦ (c ∷ cs, rw (hit, e), rw hit)
        | inr miss ↦
            let (made, run', ok) = switch-codes command others log rest in
            (made, rw miss run', rw miss ok)
      ]

module _ (d : Driver) (honest : IsHonest d) (some_gain : 0 < length (d.gains)) where
  perc-Calls : (p : ℕ) (log : Log) → Calls (set_gain_by_perc d p) log
  perc-Calls p log =
      let (g, r, at, run) = set_gain_by_perc-some d honest p log some_gain in
      (r, set_tuner_gain g, get_tuner_gains ∷ count_tuner_gains ∷ [], run)

  -- `set_gain_by_index` sets the gain of a valid index, and makes no call but the count otherwise.
  index-Calls : (p : ℕ) (log : Log) → Calls (set_gain_by_index d p) log
  unfolding set_gain_by_index call set_gain_if to_uint32
  index-Calls p log = elim (Bool-cases (ltb p (length (d.gains)))) [
    | inl inside ↦
        let (g, r, at, run) =
          set_gain_entry-some d honest p (count_tuner_gains ∷ log) (ltb→lt _ _ inside) in
        (
          r,
          set_tuner_gain g,
          get_tuner_gains ∷ count_tuner_gains ∷ [],
          rw (honest.counted log) (
              if-true
                {b = ltb_ℤ (pos 0) (pos (length (d.gains)))
                  && ltb p (to_uint32 (pos (length (d.gains))))}
                _ _ (ground (arith, inside, honest.small))
              ∙ run),
        )
    | inr outside ↦ (
      pos 0,
      count_tuner_gains,
      [],
      rw (honest.counted log) (
          if-false
            {b = ltb_ℤ (pos 0) (pos (length (d.gains)))
              && ltb p (to_uint32 (pos (length (d.gains))))}
            _ _ (ground (arith, outside, honest.small))),
    )
  ]

  cases-AllCall : (p : ℕ) (log : Log) → AllCall log (cases d p)
  unfolding cases
  cases-AllCall p log = and_more (call-Calls d _ log) (
      and_more (call-Calls d _ log) (
        and_more (call-Calls d _ log) (
          and_more (call-Calls d _ log) (
            and_more (call-Calls d _ log) (
              and_more (call-Calls d _ log) (
                and_more (call-Calls d _ log) (
                  and_more (call-Calls d _ log) (
                    and_more (call-Calls d _ log) (
                      and_more (call-Calls d _ log) (
                        and_more (call-Calls d _ log) (
                          and_more (call-Calls d _ log) (
                            and_more (index-Calls p log) (
                              and_more (call-Calls d _ log)
                                (and_more (perc-Calls p log) none_left))))))))))))))

  codes-supported : (p : ℕ) → codes (cases d p) ≡ supported_commands
  unfolding cases
  codes-supported p = refl

  -- For an honest driver with some gain, an opened device and any command byte and parameter:
  -- `tcpCommandCallback` does not fault, and it makes a call exactly when `SUPPORTED_COMMANDS` has
  -- the command.
  pub tcp_command_callback-supported :
      (command parameter : ℕ) (log : Log)
      → (made : List Call) × (tcp_command_callback d true command parameter log
          ≡ some (made ++ log))
        × (has command supported_commands ≡ is_some_call made)
  unfolding tcp_command_callback
  tcp_command_callback-supported command parameter log =
      let (made, run, ok) =
        switch-codes d command (cases d parameter) log (cases-AllCall parameter log) in
      (made, run, ap (has command) (sym (codes-supported parameter)) ∙ ok)
