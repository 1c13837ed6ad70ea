-- ===== src/Demo/Injector.antt =====
-- demo/app/error_inject.go, and `loadInjectorConfig`, `getEnv` and `parseFloat` of main.go.
pub mod Rates
use statgate.Prelude.{
  ℤ, pos, Bool, true, false, String, ◌≡◌, ◌⊎◌, inl, inr, ◌&&◌, ◌-ℤ◌, saturate64, str_eq,
  if◌then◌else◌, Bool-cases, refl, arith,
}
use statgate.Float64.{Float64}
use statgate.Demo.Calls.{DemoEnv}

pub record InjectorConfig (F : Type 0) : Type 0 where
  pub rate_start : F
  pub rate_end : F
  pub ramp_seconds : F
  pub spike_at_seconds : F
  pub spike_duration_seconds : F
  pub spike_rate : F

pub record Injector (F : Type 0) : Type 0 where
  pub start_time : ℤ
  pub config : InjectorConfig F

-- At the clock's reading.
pub new_injector : {F : Type 0} → ℤ → InjectorConfig F → Injector F
new_injector reading cfg = record { start_time = reading; config = cfg }

module _ {F : Type 0} ⦃fl : Float64 F⦄ (env : DemoEnv F) where
  open fl use {of_int, add, sub, mul, div, lt, le}

  abbrev zero_float : F
  zero_float = of_int (pos 0)

  abbrev one_float : F
  one_float = of_int (pos 1)

  abbrev pub elapsed_seconds : Injector F → ℤ → F
  elapsed_seconds e t = env.duration_seconds (saturate64 (t -ℤ e.start_time))

  -- The spike is configured, and the time lies in it.
  abbrev pub in_spike : InjectorConfig F → F → Bool
  in_spike c elapsed =
      (lt zero_float c.spike_at_seconds && lt zero_float c.spike_duration_seconds)
      && (le c.spike_at_seconds elapsed
          && lt elapsed (add c.spike_at_seconds c.spike_duration_seconds))

  abbrev clamped_progress : F → F
  clamped_progress progress =
      let from_zero = if lt progress zero_float then zero_float else progress in
      if lt one_float from_zero then one_float else from_zero

  unfoldable pub current_rate : Injector F → ℤ → F
  current_rate e t =
      let c = e.config in
      let elapsed = elapsed_seconds e t in
      if in_spike c elapsed
      then c.spike_rate
      else if le c.ramp_seconds zero_float
      then c.rate_start
      else add c.rate_start
          (mul (sub c.rate_end c.rate_start) (clamped_progress (div elapsed c.ramp_seconds)))

  unfoldable pub get_env : String → String → String
  get_env key fallback = let v = env.variable key in if str_eq v "" then fallback else v

  abbrev number_or_zero : {E : Type 0} → E ⊎ F → F
  number_or_zero (inl e) = zero_float
  number_or_zero (inr v) = v

  unfoldable pub parse_float : String → F
  parse_float s = number_or_zero (env.parse_number s)

  -- The number of a variable, or the other value where it is empty.
  abbrev rate_or : String → F → F
  rate_or key other = let v = env.variable key in if str_eq v "" then other else parse_float v

  unfoldable pub load_injector_config : InjectorConfig F
  unfolding get_env parse_float
  load_injector_config =
      let rate_start = rate_or "ERROR_RATE_START" (parse_float (get_env "ERROR_RATE" "0.0")) in
      record {
        rate_start = rate_start;
        rate_end = rate_or "ERROR_RATE_END" rate_start;
        ramp_seconds = parse_float (get_env "ERROR_RATE_RAMP_SECONDS" "0");
        spike_at_seconds = parse_float (get_env "ERROR_SPIKE_AT_SECONDS" "0");
        spike_duration_seconds = parse_float (get_env "ERROR_SPIKE_DURATION_SECONDS" "0");
        spike_rate = parse_float (get_env "ERROR_SPIKE_RATE" "0");
      }
