-- ===== src/Server/PrivacyTests.antt =====
-- The retention policy of a concrete environment.
use odyshell.Base.{
  ℕ, ◌↔◌, ◌≡◌, refl, Option, some, none, List, [], ◌∷◌, String, ◌==◌, if◌then◌else◌,
  string_discrete,
}
use odyshell.Server.Privacy.{
  DataRetentionPolicy, IsSetting, IsRetention, data_retention_policy,
  data_retention_policy-IsRetention, is_decimal, number_of, integer_setting,
}

-- A year of output, written `0365`.
abbrev environment : String → Option (List ℕ)
environment name =
    if name == "ODYSHELL_COMMAND_OUTPUT_RETENTION_DAYS" then some (48 ∷ 51 ∷ 54 ∷ 53 ∷ []) else none

year :
    data_retention_policy environment
    ≡ some (record { command_output_milliseconds = 31536000000; audit_milliseconds = 2592000000 })
unfolding data_retention_policy integer_setting is_decimal number_of string_discrete
year = refl

data_retention_policy-IsRetention_example :
    (IsSetting (environment "ODYSHELL_COMMAND_OUTPUT_RETENTION_DAYS") 1 365
      × IsSetting (environment "ODYSHELL_AUDIT_RETENTION_DAYS") 1 3650)
    ↔ ((p : DataRetentionPolicy) × (data_retention_policy environment ≡ some p) × IsRetention p)
data_retention_policy-IsRetention_example = data_retention_policy-IsRetention environment
