-- ===== src/Keystore/Epoch.antt =====
-- `advance_commit_epoch` and `advance_treasury_config_version` of agent_keystore.rs.
use d_hsm.Prelude.{ℕ, ◌+◌, ◌^◌, Bool, true, false, leb, if◌then◌else◌}
use d_hsm.Keystore.Types.{KeystoreBody, Result, ok, err, monotonic_overflow, ◌>>=◌}

-- `checked_add(1)` on a `u64`.
abbrev pub checked_succ : ℕ → Result ℕ
checked_succ n = if leb (2 ^ 64) (n + 1) then err monotonic_overflow else ok (n + 1)

abbrev pub next_structural : Bool → ℕ → Result ℕ
next_structural true n = checked_succ n
next_structural false n = ok n

unfoldable pub advance_commit_epoch : KeystoreBody → Bool → Result KeystoreBody
advance_commit_epoch body bumps_structural = do
  new_epoch ← checked_succ body.freshness_epoch
  new_structural ← next_structural bumps_structural body.structural_version
  ok (record body { freshness_epoch = new_epoch; structural_version = new_structural })

unfoldable pub advance_treasury_config_version : KeystoreBody → Result KeystoreBody
advance_treasury_config_version body = do
  next ← checked_succ body.config.monotonic_treasury_config_version
  ok (record body { config = record body.config { monotonic_treasury_config_version = next } })

abbrev pub bumped : Bool → ℕ → ℕ
bumped true n = n + 1
bumped false n = n
