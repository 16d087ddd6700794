-- ===== src/Device/Examples.antt =====
-- The theorems on gains and commands for a driver of three gains that accepts every call.
use android_rtlpower.Device.Handle.{Event, Session}
use android_rtlpower.Device.Tools.{verbose_device_search}
use android_rtlpower.Device.Tools.Search.{verbose_device_search-exact}
use android_rtlpower.Base.{
  ℕ, ◌≤◌, ◌≡◌, refl, true, some, List, [], ◌∷◌, ◌++◌, get_elem?, arith, ◌+◌,
}
use android_rtlpower.Base.Int.{ℤ, pos}
use android_rtlpower.Device.{
  Driver, Call, Log, count_tuner_gains, get_tuner_gains, set_tuner_gain_mode, nearest_gain,
  supported_commands, tcp_command_callback,
}
use android_rtlpower.Device.Gains.{IsHonest, IsNearest, nearest_gain-IsNearest}
use android_rtlpower.Device.Session.{open_async, opens, closes, open_async-closes}
use android_rtlpower.Device.Commands.{has, is_some_call, tcp_command_callback-supported}

abbrev answer_with : ℤ → Log → Call → ℤ
answer_with n log count_tuner_gains = n
answer_with n log get_tuner_gains = n
answer_with n log _ = pos 0

abbrev three_gains : Driver
three_gains = record {
  answer = answer_with (pos 3);
  gains = pos 0 ∷ pos 125 ∷ pos 496 ∷ [];
  malloc = λ n. true;
}

three_gains-IsHonest : IsHonest three_gains
three_gains-IsHonest = record {
  counted = λ log. refl;
  filled = λ log. refl;
  enough = λ n. refl;
  small = omega arith;
}

nearest_gain-IsNearest_example :
    (g : ℤ) × (nearest_gain three_gains (pos 200) []
      ≡ some (g, get_tuner_gains ∷ count_tuner_gains ∷ set_tuner_gain_mode (pos 1) ∷ []))
    × IsNearest (pos 200) (three_gains.gains) g
nearest_gain-IsNearest_example =
    nearest_gain-IsNearest three_gains three_gains-IsHonest (pos 200) [] (omega arith) refl

tcp_command_callback-supported_example :
    (made : List Call) × (tcp_command_callback three_gains true 0x0d 2 [] ≡ some (made ++ []))
    × (has 0x0d supported_commands ≡ is_some_call made)
tcp_command_callback-supported_example =
    tcp_command_callback-supported three_gains three_gains-IsHonest (omega arith) 0x0d 2 []

open_async-closes_example :
    closes ((open_async three_gains (pos 0) (pos 2_400_000) (pos 100_000_000) (pos 0) true []).1)
      + opens three_gains []
    ≡ closes []
      + opens three_gains
          ((open_async three_gains (pos 0) (pos 2_400_000) (pos 100_000_000) (pos 0) true []).1)
open_async-closes_example =
    open_async-closes three_gains (pos 0) (pos 2_400_000) (pos 100_000_000) (pos 0) true []

-- no string is a number
abbrev no_number : List ℕ → ℤ × List ℕ
no_number s = (pos 0, b'x' ∷ [])

abbrev serials : List (List ℕ)
serials = (1 ∷ 2 ∷ []) ∷ (3 ∷ 2 ∷ []) ∷ []

verbose_device_search-exact_example :
    (j : ℕ) × (verbose_device_search no_number serials (3 ∷ 2 ∷ []) ≡ pos j)
    × (get_elem? serials j ≡ some (3 ∷ 2 ∷ []))
    × (j ≤ 1)
verbose_device_search-exact_example =
    verbose_device_search-exact no_number serials (3 ∷ 2 ∷ []) 1 refl refl

-- a device is opened and gives samples, the server is stopped and ends, and Java drops the object
abbrev one_session : List Event
one_session =
    Event.opens 4 [] (pos 3) true true
    ∷ Event.serves
    ∷ Event.samples (1 ∷ 2 ∷ []) true
    ∷ Event.command
    ∷ Event.stops
    ∷ Event.server_closed
    ∷ Event.returns
    ∷ Event.finalizes
    ∷ []
