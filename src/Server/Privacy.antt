-- ===== src/Server/Privacy.antt =====
-- apps/server/src/privacy.ts: how long output and audit events are kept. A setting of the environment is
-- the list of its code units.

use odyshell.Base.{
  ℕ, ◌+◌, ◌-◌, ◌*◌, ◌≤◌, ◌≡◌, ◌↔◌, refl, Bool, true, not, ◌&&◌, ◌||◌, Option, none, some, List, [],
  ◌∷◌, String, if◌then◌else◌, ltb, leb, eqb, length, arith,
}

abbrev pub day : ℕ
day = 86400000

abbrev is_digit : ℕ → Bool
is_digit c = leb 48 c && leb c 57

abbrev all_digits : List ℕ → Bool
all_digits [] = true
all_digits (c ∷ cs) = is_digit c && all_digits cs

-- The test `/^\d+$/`
unfoldable pub is_decimal : List ℕ → Bool
is_decimal raw = not (eqb (length raw) 0) && all_digits raw

abbrev number_after : ℕ → List ℕ → ℕ
number_after n [] = n
number_after n (c ∷ cs) = number_after (n * 10 + (c - 48)) cs

-- `Number` of decimal digits. One past the safe integers is rounded there, and is too large either way.
unfoldable pub number_of : List ℕ → ℕ
number_of raw = number_after 0 raw

abbrev setting_of : Option (List ℕ) → (default_value minimum maximum : ℕ) → Option ℕ
setting_of none default_value minimum maximum = some default_value
setting_of (some raw) default_value minimum maximum =
    if not (is_decimal raw)
    then none
    else if ltb (number_of raw) minimum || ltb maximum (number_of raw)
    then none
    else some (number_of raw)

-- `none` is the error that the setting must be an integer within its bounds, which are safe integers.
unfoldable pub integer_setting :
    (environment : String → Option (List ℕ)) (name : String) (default_value minimum maximum : ℕ)
    → Option ℕ
integer_setting environment name default_value minimum maximum =
    setting_of (environment name) default_value minimum maximum

pub record DataRetentionPolicy : Type 0 where
  pub command_output_milliseconds : ℕ
  pub audit_milliseconds : ℕ

abbrev policy_of : Option ℕ → Option ℕ → Option DataRetentionPolicy
policy_of none audit = none
policy_of (some output) none = none
policy_of (some output) (some audit) =
    some (record { command_output_milliseconds = output * day; audit_milliseconds = audit * day })

unfoldable pub data_retention_policy :
    (environment : String → Option (List ℕ)) → Option DataRetentionPolicy
data_retention_policy environment =
    policy_of (integer_setting environment "ODYSHELL_COMMAND_OUTPUT_RETENTION_DAYS" 30 1 365)
      (integer_setting environment "ODYSHELL_AUDIT_RETENTION_DAYS" 30 1 3650)

-- What a setting may be: missing, or decimal digits of a number within the bounds.
abbrev pub IsSetting : Option (List ℕ) → (minimum maximum : ℕ) → Type 0
IsSetting none minimum maximum = Unit
IsSetting (some raw) minimum maximum =
    (is_decimal raw ≡ true) × (minimum ≤ number_of raw) × (number_of raw ≤ maximum)

setting_of-within :
    (o : Option (List ℕ)) (d lo hi : ℕ)
    → lo ≤ d
    → d ≤ hi
    → IsSetting o lo hi
    → (v : ℕ) × (setting_of o d lo hi ≡ some v) × (lo ≤ v) × (v ≤ hi)
setting_of-within none d lo hi least most valid = (d, refl, least, most)
setting_of-within (some raw) d lo hi least most (decimal, above, below) =
    (number_of raw, ground arith, above, below)

setting_of-IsSetting :
    (o : Option (List ℕ)) (d lo hi v : ℕ) → setting_of o d lo hi ≡ some v → IsSetting o lo hi
setting_of-IsSetting none d lo hi v e = tt
setting_of-IsSetting (some raw) d lo hi v e = (ground arith, ground arith, ground arith)

policy_of-some :
    (output audit : Option ℕ) (p : DataRetentionPolicy)
    → policy_of output audit ≡ some p
    → ((a : ℕ) × (output ≡ some a)) × ((b : ℕ) × (audit ≡ some b))
policy_of-some none audit p e = cc
policy_of-some (some a) none p e = cc
policy_of-some (some a) (some b) p e = ((a, refl), (b, refl))

-- The periods are those between a day and a year, and between a day and ten years.
abbrev pub IsRetention : DataRetentionPolicy → Type 0
IsRetention p =
    (day ≤ p.command_output_milliseconds)
    × (p.command_output_milliseconds ≤ 365 * day)
    × (day ≤ p.audit_milliseconds)
    × (p.audit_milliseconds ≤ 3650 * day)

-- There is a retention policy exactly where each of its two settings is missing or is decimal digits of
-- a number within its bounds; any other setting is an error. Output is then kept for a day at least and
-- 365 days at most, audit events for a day at least and 3650 days at most.
pub data_retention_policy-IsRetention :
    (environment : String → Option (List ℕ))
    → (IsSetting (environment "ODYSHELL_COMMAND_OUTPUT_RETENTION_DAYS") 1 365
        × IsSetting (environment "ODYSHELL_AUDIT_RETENTION_DAYS") 1 3650)
      ↔ ((p : DataRetentionPolicy) × (data_retention_policy environment ≡ some p) × IsRetention p)
unfolding data_retention_policy integer_setting
data_retention_policy-IsRetention environment = (
  (λ (output, audit).
      let (a, at_a, least_a, most_a) =
        setting_of-within (environment "ODYSHELL_COMMAND_OUTPUT_RETENTION_DAYS") 30 1 365
          (omega arith) (omega arith) output in
      let (b, at_b, least_b, most_b) =
        setting_of-within (environment "ODYSHELL_AUDIT_RETENTION_DAYS") 30 1 3650 (omega arith)
          (omega arith) audit in
      (
        record { command_output_milliseconds = a * day; audit_milliseconds = b * day },
        rw (at_a, at_b) refl,
        (omega arith, omega arith, omega arith, omega arith),
      )),
  (λ (p, e, periods).
      let ((a, at_a), (b, at_b)) =
        policy_of-some
          (integer_setting environment "ODYSHELL_COMMAND_OUTPUT_RETENTION_DAYS" 30 1 365)
          (integer_setting environment "ODYSHELL_AUDIT_RETENTION_DAYS" 30 1 3650) p e in
      (
        setting_of-IsSetting (environment "ODYSHELL_COMMAND_OUTPUT_RETENTION_DAYS") 30 1 365 a at_a,
        setting_of-IsSetting (environment "ODYSHELL_AUDIT_RETENTION_DAYS") 30 1 3650 b at_b,
      )),
)
