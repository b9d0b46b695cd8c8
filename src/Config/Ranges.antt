-- ===== src/Config/Ranges.antt =====
-- The numbers of a configuration are in their ranges, whatever the environment holds.
use digital_store.Prelude.{false, Option-cases, inl, inr, String, ℤ, pos, atoi, ◌≡◌, arith}
use digital_store.Config.{Numbers, Environment, is_below_1, get_int_env, get_float_env, load}

get_int_env-pos :
    (env : Environment) (key : String) (fallback : ℤ)
    → is_below_1 fallback ≡ false
    → is_below_1 (get_int_env env key fallback) ≡ false
unfolding get_int_env
get_int_env-pos env key fallback h = elim (Option-cases (atoi (env key))) [
  | inl e ↦ ground (arith, h, e)
  | inr (n, e) ↦ ground (arith, h, e)
]

module _ (numbers : Numbers) (env : Environment) where
  open numbers use {Float, zero, is_below_0, is_above_1, parse_float, zero-below, zero-above}

  -- Neither comparison of the range check holds.
  abbrev pub InRange : Float → Type 0
  InRange x = (is_below_0 x ≡ false) × (is_above_1 x ≡ false)

  get_float_env-InRange : (key : String) → InRange (get_float_env numbers env key zero)
  unfolding get_float_env
  get_float_env-InRange key = elim (Option-cases (parse_float (env key))) [
    | inl e ↦ (ground (arith, e, zero-below), ground (arith, e, zero-above))
    | inr (x, e) ↦ (ground (arith, e, zero-below), ground (arith, e, zero-above))
  ]

  -- Whatever the environment holds, a configuration tries each provider at least once, and its rates
  -- of failures and timeouts are not below 0 and not above 1.
  pub load-ranges :
      (is_below_1 (load numbers env).provider_retry_count ≡ false)
      × InRange (load numbers env).provider_a_fail_rate
      × InRange (load numbers env).provider_a_timeout_rate
      × InRange (load numbers env).provider_b_fail_rate
      × InRange (load numbers env).provider_b_timeout_rate
  unfolding load
  load-ranges = (
    get_int_env-pos env "PROVIDER_RETRY_COUNT" (pos 3) (ground arith),
    get_float_env-InRange "PROVIDER_A_FAIL_RATE",
    get_float_env-InRange "PROVIDER_A_TIMEOUT_RATE",
    get_float_env-InRange "PROVIDER_B_FAIL_RATE",
    get_float_env-InRange "PROVIDER_B_TIMEOUT_RATE",
  )
