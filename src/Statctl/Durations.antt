-- ===== src/Statctl/Durations.antt =====
-- cmd/statctl/render.go: `humanDuration`.
use statgate.Prelude.{
  ℕ, ℤ, pos, negsuc, zero, suc, true, false, String, ◌≡◌, refl, ◌+◌, ◌*◌, ◌/◌, ◌%◌, ◌≤◌, ◌<◌, ltb_ℤ,
  if◌then◌else◌, show_ℤ, ◌+s◌, Bool-cases, inl, inr, arith,
}
use statgate.Float64.{Float64}
use statgate.Effects.{Env}

abbrev pub minute : ℕ
minute = 60000000000

abbrev pub hour : ℕ
hour = 3600000000000

abbrev pub day : ℕ
day = 86400000000000

abbrev opposite : ℕ → ℤ
opposite zero = pos 0
opposite (suc n) = negsuc n

-- `n % 60`, which has the sign of `n`.
abbrev rest60 : ℤ → ℤ
rest60 (pos n) = pos (n % 60)
rest60 (negsuc n) = opposite (suc n % 60)

module _ {F V : Type 0} ⦃fl : Float64 F⦄ (env : Env F V) where
  open fl use {of_int, to_int, div}

  -- Behind the clamp.
  printed : ℤ → String
  printed d =
      let seconds = to_int (env.seconds_of d) in
      let minutes = to_int (env.minutes_of d) in
      if ltb_ℤ d (pos minute)
      then show_ℤ seconds +s "s"
      else if ltb_ℤ d (pos hour)
      then show_ℤ minutes +s "m" +s show_ℤ (rest60 seconds) +s "s"
      else if ltb_ℤ d (pos day)
      then show_ℤ (to_int (env.hours_of d)) +s "h" +s show_ℤ (rest60 minutes) +s "m"
      else show_ℤ (to_int (div (env.hours_of d) (of_int (pos 24)))) +s "d"

  unfoldable pub human_duration : ℤ → String
  unfolding printed
  human_duration d = printed (if ltb_ℤ d (pos 0) then pos 0 else d)

  human_duration-nonnegative : (d : ℕ) → human_duration (pos d) ≡ printed (pos d)
  unfolding human_duration
  human_duration-nonnegative d = let h : ltb_ℤ (pos d) (pos 0) ≡ false = ground arith in rw h refl

  -- Below a day, a conversion of `Seconds`, `Minutes` or `Hours` to an integer drops the fraction.
  pub record IsUnits : Type 0 where
    pub seconds : (d : ℕ) → d < day → to_int (env.seconds_of (pos d)) ≡ pos (d / 1000000000)
    pub minutes : (d : ℕ) → d < day → to_int (env.minutes_of (pos d)) ≡ pos (d / minute)
    pub hours : (d : ℕ) → d < day → to_int (env.hours_of (pos d)) ≡ pos (d / hour)

  -- The text is of the two largest units of the duration, rounded down.
  pub data IsElapsed (d : ℕ) (text : String) : Type 0 where
    in_seconds :
        (s : ℕ)
        → s < 60
        → s * 1000000000 ≤ d
        → d < (s + 1) * 1000000000
        → text ≡ show_ℤ (pos s) +s "s"
        → IsElapsed d text
    in_minutes :
        (m s : ℕ)
        → 1 ≤ m
        → m < 60
        → s < 60
        → m * minute + s * 1000000000 ≤ d
        → d < m * minute + (s + 1) * 1000000000
        → text ≡ show_ℤ (pos m) +s "m" +s show_ℤ (pos s) +s "s"
        → IsElapsed d text
    in_hours :
        (h m : ℕ)
        → 1 ≤ h
        → h < 24
        → m < 60
        → h * hour + m * minute ≤ d
        → d < h * hour + (m + 1) * minute
        → text ≡ show_ℤ (pos h) +s "h" +s show_ℤ (pos m) +s "m"
        → IsElapsed d text

  within_day : (d : ℕ) → d < day → ltb_ℤ (pos d) (pos day) ≡ true
  within_day d below = ground arith

  printed-IsElapsed : (units : IsUnits) (d : ℕ) → d < day → IsElapsed d (printed (pos d))
  unfolding printed
  printed-IsElapsed units d below = elim (Bool-cases (ltb_ℤ (pos d) (pos minute))) [
    | inl short ↦
        rw (short, units.seconds d below)
          (in_seconds (d / 1000000000) (ground arith) (omega arith) (omega arith) refl)
    | inr long ↦ elim (Bool-cases (ltb_ℤ (pos d) (pos hour))) [
      | inl short ↦
          rw (long, short, units.seconds d below, units.minutes d below)
            (in_minutes (d / minute) (d / 1000000000 % 60) (ground arith) (ground arith)
              (omega arith) (omega arith) (omega arith) refl)
      | inr longer ↦
          rw (long, longer, within_day d below, units.minutes d below, units.hours d below)
            (in_hours (d / hour) (d / minute % 60) (ground arith) (omega arith) (omega arith)
              (omega arith) (omega arith) refl)
    ]
  ]

  -- Below a day, and where a conversion drops the fraction, a duration is printed in seconds, in minutes
  -- and seconds, or in hours and minutes, each below its next unit and the first not 0 but in seconds
  -- alone; what is printed is the duration rounded down to the last unit.
  pub human_duration-IsElapsed :
      (units : IsUnits) (d : ℕ) → d < day → IsElapsed d (human_duration (pos d))
  human_duration-IsElapsed units d below =
      rw (human_duration-nonnegative d) (printed-IsElapsed units d below)
