-- ===== src/Config/Checks.antt =====
-- src/main.rs: what `main` makes of the settings before it starts.
use wazuh_ocsf_etl.Base.{
  ◌≤◌, ◌<◌, ◌^◌, ◌*◌, ◌%◌, String, List, [], ◌∷◌, ◌++◌, Bool, Option, if◌then◌else◌, eqb, ltb, ◌≡◌,
  arith,
}
use wazuh_ocsf_etl.Config.{parse_switch}
use wazuh_ocsf_etl.Config.Settings.{AppConfig}

-- The value that is stored in `OCSF_VALIDATE`
abbrev pub validate_setting : (String → Option String) → Bool
validate_setting var = parse_switch (var "OCSF_VALIDATE")

pub data Warning : Type 0 where
  empty_batch endless_ticks small_channel : Warning

abbrev warn_if : Bool → Warning → List Warning
warn_if test w = if test then w ∷ [] else []

-- Without overflow checks, as in a release build, the product wraps around.
unfoldable pub startup_warnings : AppConfig → List Warning
startup_warnings cfg =
    warn_if (eqb cfg.batch_size 0) empty_batch
    ++ (warn_if (eqb cfg.flush_interval_secs 0) endless_ticks
        ++ warn_if (ltb cfg.channel_cap ((cfg.batch_size * 2) % 2 ^ 64)) small_channel)

-- Without a warning, a batch and an interval are at least 1, and the channel holds two batches, for batches of
-- less than 2^63 rows.
pub no_warning :
    (cfg : AppConfig)
    → cfg.batch_size < 2 ^ 63
    → startup_warnings cfg ≡ []
    → (1 ≤ cfg.batch_size) × (1 ≤ cfg.flush_interval_secs) × (cfg.batch_size * 2 ≤ cfg.channel_cap)
unfolding startup_warnings
no_warning cfg small quiet = ground arith
