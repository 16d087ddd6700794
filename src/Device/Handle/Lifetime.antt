-- ===== src/Device/Handle/Lifetime.antt =====
-- Each device that `openAsync` opens is closed once, and is not used after that.
use android_rtlpower.Base.{ℕ, ◌+◌, ◌≡◌, Bool, true, false, Option, some, List, [], ◌∷◌}
use android_rtlpower.Device.Handle.{Session, Event}
use android_rtlpower.Device.Handle.Sound.{closes_of, opens_of, uses, never_late}

-- A finalization is the last event.
abbrev pub ends_there : List Event → Bool
ends_there [] = true
ends_there (Event.finalizes ∷ []) = true
ends_there (Event.finalizes ∷ e ∷ es) = false
ends_there (_ ∷ es) = ends_there es

-- What the theorem says of the session at the end.
abbrev Balanced : Option Session → Type 0
Balanced o =
    (s : Session) × (o ≡ some s)
    × ((d : ℕ) → closes_of d s.calls + uses d s.doing ≡ opens_of d s.calls)
    × (never_late s.calls ≡ true)
