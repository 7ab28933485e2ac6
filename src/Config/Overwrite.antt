-- ===== src/Config/Overwrite.antt =====
-- `OverwriteCfgFrom` of pkg/librevm/config.go: the fields of the generated configuration file take
-- precedence. Neither configuration is `nil`.
pub mod Laws
use ovm_next.Base.{
  Text, ◌==◌, trim_space, ℕ, ℤ, is_positive, ltb, Bool, List, [], ◌∷◌, is_empty, if◌then◌else◌,
}
use ovm_next.Config.{Config, RawDisk}

-- `if v := strings.TrimSpace(value); v != "" { field = v }`
unfoldable pub prefer_text : Text → Text → Text
prefer_text value field = if trim_space value == [] then field else trim_space value

-- `if len(values) > 0 { field = values }`; a copy of a list is the list.
abbrev pub prefer_list {ℓ} : {A : Type ℓ} → List A → List A → List A
prefer_list values field = if is_empty values then field else values

-- `OverwriteCfgFrom`
unfoldable pub overwrite_cfg_from : Config → Config → Config
overwrite_cfg_from c other = record c {
  session_id = prefer_text other.session_id c.session_id;
  cpus = if is_positive other.cpus then other.cpus else c.cpus;
  memory_mb = if ltb 0 other.memory_mb then other.memory_mb else c.memory_mb;
  var_disk = if trim_space other.var_disk.raw_disk_path == [] then c.var_disk else other.var_disk;
  external_disks = prefer_list other.external_disks c.external_disks;
  mounts = prefer_list other.mounts c.mounts;
  forward_unix = prefer_list other.forward_unix c.forward_unix;
  podman_proxy_api_file = prefer_text other.podman_proxy_api_file c.podman_proxy_api_file;
  manage_api_file = prefer_text other.manage_api_file c.manage_api_file;
  ssh_key_private_file_symbol_links =
      prefer_text other.ssh_key_private_file_symbol_links c.ssh_key_private_file_symbol_links;
  ssh_key_public_file_symbol_links =
      prefer_text other.ssh_key_public_file_symbol_links c.ssh_key_public_file_symbol_links;
  log_level = prefer_text other.log_level c.log_level;
  log_to = prefer_text other.log_to c.log_to;
}
