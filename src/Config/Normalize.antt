-- ===== src/Config/Normalize.antt =====
-- `NormalizeConfig` and `validateConfig` of pkg/librevm/config.go.
pub mod Validity
pub mod Resolving
pub mod Laws
use ovm_next.Base.{
  Text, codes, ◌==◌, ℕ, ◌/◌, ℤ, pos, is_positive, exceeds, ltb, eqb, Bool, true, false, not, ◌||◌,
  List, [], ◌∷◌, if◌then◌else◌, Option, none, some, Result, ok, err, ◌>>=◌,
}
use ovm_next.Define.{gvisor, tsi, var_disk_mount_point, var_data_disk_uuid}
use ovm_next.Config.{Config, RawDisk, mode_container}

pub data ConfigError : Type 0 where
  detect_memory no_session no_var_disk wrong_var_disk : ConfigError
  invalid_run_mode invalid_network : Text → ConfigError
  memory_too_small : ℕ → ConfigError
  too_few_cpus too_many_cpus : ℤ → ConfigError

-- What the program asks of its host: `runtime.NumCPU`, and the total of `mem.VirtualMemory` in
-- bytes, `none` where that fails.
pub record HostLimits : Type 0 where
  pub num_cpu : ℕ
  pub total_memory : Option ℕ

-- `RunMode.IsValid`
unfoldable pub run_mode_is_valid : Text → Bool
run_mode_is_valid m = m == mode_container

-- `validateConfig`
unfoldable pub validate_config : Config → Option ConfigError
unfolding run_mode_is_valid
validate_config cfg =
    if cfg.session_id == []
    then some no_session
    else if not (run_mode_is_valid cfg.run_mode)
    then some (invalid_run_mode cfg.run_mode)
    else if ltb cfg.memory_mb 512
    then some (memory_too_small cfg.memory_mb)
    else if not (is_positive cfg.cpus)
    then some (too_few_cpus cfg.cpus)
    else if exceeds 255 cfg.cpus
    then some (too_many_cpus cfg.cpus)
    else if not (cfg.network == gvisor || cfg.network == tsi)
    then some (invalid_network cfg.network)
    else if cfg.var_disk.raw_disk_path == []
    then some no_var_disk
    else if not (cfg.var_disk.mnt == var_disk_mount_point)
        || not (cfg.var_disk.uuid == var_data_disk_uuid)
    then some wrong_var_disk
    else none

unfoldable pub resolve_cpus : HostLimits → Config → Config
resolve_cpus host cfg = if is_positive cfg.cpus then cfg else record cfg { cpus = pos host.num_cpu }

unfoldable pub resolve_memory : HostLimits → Config → Result ConfigError Config
resolve_memory host cfg =
    if eqb cfg.memory_mb 0
    then elim host.total_memory [
      | none ↦ err detect_memory
      | some total ↦ ok (record cfg { memory_mb = total / 1024 / 1024 })
    ]
    else ok cfg

-- `if value == "" { value = fallback }`
abbrev pub or_default : Text → Text → Text
or_default value fallback = if value == [] then fallback else value

unfoldable pub resolve_texts : Config → Config
resolve_texts cfg = record cfg {
  network = or_default cfg.network gvisor;
  log_level = or_default cfg.log_level (codes "info");
  work_dir = or_default cfg.work_dir (codes "/");
}

abbrev pub checked : Config → Option ConfigError → Result ConfigError Config
checked cfg none = ok cfg
checked cfg (some e) = err e

-- `NormalizeConfig`
unfoldable pub normalize_config : HostLimits → Config → Result ConfigError Config
normalize_config host cfg = do
  sized ← resolve_memory host (resolve_cpus host cfg)
  checked (resolve_texts sized) (validate_config (resolve_texts sized))
