-- ===== src/Demo/Injector/Rates.antt =====
-- The failure rate over time, and that of a configuration with one rate.
use statgate.Prelude.{ℤ, pos, true, false, ◌≡◌, inr, refl, Bool-cases, inl}
use statgate.Float64.{Float64}
use statgate.Demo.Calls.{DemoEnv}
use statgate.Demo.Injector.{
  InjectorConfig, Injector, new_injector, elapsed_seconds, in_spike, clamped_progress, current_rate,
  get_env, parse_float, load_injector_config,
}

-- What IEEE 754 says of 0 and 1.
pub record OrdersUnits {F : Type 0} (fl : Float64 F) : Type 0 where
  pub zero_zero : fl.lt (fl.of_int (pos 0)) (fl.of_int (pos 0)) ≡ false
  pub one_zero : fl.lt (fl.of_int (pos 1)) (fl.of_int (pos 0)) ≡ false
  pub one_one : fl.lt (fl.of_int (pos 1)) (fl.of_int (pos 1)) ≡ false
  pub le_zero : fl.le (fl.of_int (pos 0)) (fl.of_int (pos 0)) ≡ true

module _ {F : Type 0} ⦃fl : Float64 F⦄ (units : OrdersUnits fl) (env : DemoEnv F) where
  open fl use {of_int, add, sub, mul, div, lt, le}

  -- A number from 0 to 1, and the ratio itself where that is one.
  pub record IsProgress (ratio p : F) : Type 0 where
    pub from_zero : lt p (of_int (pos 0)) ≡ false
    pub to_one : lt (of_int (pos 1)) p ≡ false
    pub within : lt ratio (of_int (pos 0)) ≡ false → lt (of_int (pos 1)) ratio ≡ false → p ≡ ratio

  -- The spike goes before the ramp, and the ramp before the constant rate.
  pub data IsRate (c : InjectorConfig F) (elapsed rate : F) : Type 0 where
    spike : in_spike env c elapsed ≡ true → rate ≡ c.spike_rate → IsRate c elapsed rate
    constant :
        in_spike env c elapsed ≡ false
        → le c.ramp_seconds (of_int (pos 0)) ≡ true
        → rate ≡ c.rate_start
        → IsRate c elapsed rate
    ramp :
        in_spike env c elapsed ≡ false
        → le c.ramp_seconds (of_int (pos 0)) ≡ false
        → (p : F) → IsProgress (div elapsed c.ramp_seconds) p
        → rate ≡ add c.rate_start (mul (sub c.rate_end c.rate_start) p)
        → IsRate c elapsed rate

  clamped_progress-IsProgress : (ratio : F) → IsProgress ratio (clamped_progress env ratio)
  clamped_progress-IsProgress ratio = elim (Bool-cases (lt ratio (of_int (pos 0)))) [
    | inl below ↦
        rw (below, units.one_zero)
          (record { from_zero = units.zero_zero; to_one = units.one_zero; within = λ h k. cc })
    | inr above ↦ elim (Bool-cases (lt (of_int (pos 1)) ratio)) [
      | inl over ↦
          rw (above, over)
            (record { from_zero = units.one_zero; to_one = units.one_one; within = λ h k. cc })
      | inr under ↦
          rw (above, under) (record { from_zero = above; to_one = under; within = λ h k. refl })
    ]
  ]

  -- At any time the rate is that of the spike while it lasts; else the first rate, if there is no ramp;
  -- else the point of the ramp from the first rate to the last, by a progress between 0 and 1.
  pub current_rate-IsRate :
      (e : Injector F) (t : ℤ) → IsRate e.config (elapsed_seconds env e t) (current_rate env e t)
  unfolding current_rate
  current_rate-IsRate e t = elim (Bool-cases (in_spike env e.config (elapsed_seconds env e t))) [
    | inl inside ↦ rw inside (spike inside refl)
    | inr outside ↦ elim (Bool-cases (le e.config.ramp_seconds (of_int (pos 0)))) [
      | inl flat ↦ rw (outside, flat) (constant outside flat refl)
      | inr ramped ↦
          rw (outside, ramped)
            (ramp outside ramped _ (clamped_progress-IsProgress (div _ e.config.ramp_seconds)) refl)
    ]
  ]

  -- Where the variables for the first rate, the ramp and the time of the spike are empty, the rate is
  -- that of `ERROR_RATE` at any time, with 0.0 in place of an empty one.
  pub current_rate_constant :
      (start t : ℤ)
      → env.variable "ERROR_RATE_START" ≡ ""
      → env.variable "ERROR_RATE_RAMP_SECONDS" ≡ ""
      → env.variable "ERROR_SPIKE_AT_SECONDS" ≡ ""
      → env.parse_number "0" ≡ inr (of_int (pos 0))
      → current_rate env (new_injector start (load_injector_config env)) t
        ≡ parse_float env (get_env env "ERROR_RATE" "0.0")
  unfolding current_rate load_injector_config new_injector
  current_rate_constant start t no_start no_ramp no_spike zero =
      rw (no_start, no_ramp, no_spike, zero, units.zero_zero, units.le_zero) refl
