-- ===== src/Tests/Settings.antt =====
-- The result about the configuration, applied to an environment with a negative number of tries.
use digital_store.Prelude.{ℕ, ltb, str_eq, if◌then◌else◌, false, none, ◌≡◌, refl}
use digital_store.Config.{Numbers, Environment, is_below_1, load}
use digital_store.Config.Ranges.{InRange, load-ranges}
use digital_store.Tests.Shop.{from_unary}

abbrev pub numbers : Numbers
numbers = record {
  Float = ℕ;
  zero = 0;
  is_below_0 = λ n. false;
  is_above_1 = λ n. ltb 1 n;
  parse_float = from_unary;
  parse_duration = λ s. none;
  zero-below = refl;
  zero-above = refl;
}

-- The rate stands for 2.
abbrev pub env : Environment
env key =
    if str_eq key "PROVIDER_RETRY_COUNT"
    then "-5"
    else if str_eq key "PROVIDER_A_FAIL_RATE"
    then "uu"
    else ""

load-ranges_example :
    (is_below_1 (load numbers env).provider_retry_count ≡ false)
    × InRange numbers env (load numbers env).provider_a_fail_rate
    × InRange numbers env (load numbers env).provider_a_timeout_rate
    × InRange numbers env (load numbers env).provider_b_fail_rate
    × InRange numbers env (load numbers env).provider_b_timeout_rate
load-ranges_example = load-ranges numbers env
