-- ===== src/Config/With.antt =====
-- The chain methods of pkg/librevm/config.go that set one field, or append to a list.
use ovm_next.Base.{
  Text, ◌==◌, trim_space, ℕ, ℤ, is_positive, ltb, Bool, List, [], ◌++◌, if◌then◌else◌,
}
use ovm_next.Config.{Config}

-- `WithMode`
unfoldable pub with_mode : Text → Config → Config
with_mode m c = if m == [] then c else record c { run_mode = m }

-- `WithCPUs`
unfoldable pub with_cpus : ℤ → Config → Config
with_cpus n c = if is_positive n then record c { cpus = n } else c

-- `WithMemory`
unfoldable pub with_memory : ℕ → Config → Config
with_memory mb c = if ltb 0 mb then record c { memory_mb = mb } else c

-- `WithWorkDir`
unfoldable pub with_work_dir : Text → Config → Config
with_work_dir dir c = if dir == [] then c else record c { work_dir = dir }

-- `WithNetwork`
unfoldable pub with_network : Text → Config → Config
with_network mode c = if mode == [] then c else record c { network = mode }

-- `WithPodmanProxyAPIFile`
unfoldable pub with_podman_proxy_api_file : Text → Config → Config
with_podman_proxy_api_file path c =
    if path == [] then c else record c { podman_proxy_api_file = path }

-- `WithManageAPIFile`
unfoldable pub with_manage_api_file : Text → Config → Config
with_manage_api_file path c = if path == [] then c else record c { manage_api_file = path }

-- `WithExportSSHKeyPrivateFile`
unfoldable pub with_export_ssh_key_private_file : Text → Config → Config
with_export_ssh_key_private_file path c =
    if path == [] then c else record c { ssh_key_private_file_symbol_links = path }

-- `WithExportSSHKeyPublicFile`
unfoldable pub with_export_ssh_key_public_file : Text → Config → Config
with_export_ssh_key_public_file path c =
    if path == [] then c else record c { ssh_key_public_file_symbol_links = path }

-- `WithReportEndpoint`
unfoldable pub with_report_endpoint : Text → Config → Config
with_report_endpoint url c =
    let v = trim_space url in if v == [] then c else record c { report_url = v }

-- `WithProxy`
unfoldable pub with_proxy : Bool → Config → Config
with_proxy enable c = record c { proxy = enable }

-- `WithLogLevelAndLogFile`
unfoldable pub with_log_level_and_log_file : Text → Text → Config → Config
with_log_level_and_log_file level log_to c =
    let leveled = if level == [] then c else record c { log_level = level } in
    if log_to == [] then leveled else record leveled { log_to = log_to }

-- `WithEnv`; appending no value changes nothing.
unfoldable pub with_env : List Text → Config → Config
with_env kvs c = record c { env = c.env ++ kvs }

-- `WithMount`
unfoldable pub with_mount : List Text → Config → Config
with_mount specs c = record c { mounts = c.mounts ++ specs }

-- `WithForwardUnix`
unfoldable pub with_forward_unix : List Text → Config → Config
with_forward_unix specs c = record c { forward_unix = c.forward_unix ++ specs }
