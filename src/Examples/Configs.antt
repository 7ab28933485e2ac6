-- ===== src/Examples/Configs.antt =====
-- Configurations, on the one of a session "s".
use ovm_next.Define.{default_raw_disk_version}
use ovm_next.Config.Disks.{reading_disks}
use ovm_next.Base.{
  ℕ, Text, codes, ◌==◌, [], ◌∷◌, ok, ◌≡◌, refl, arith, none, some, pos, to_u8, trim_space,
}
use ovm_next.Config.{Config, RawDisk, default_config, get_default_var_disk_path, mode_container}
use ovm_next.Config.Normalize.{
  resolve_memory, resolve_cpus, resolve_texts, HostLimits, normalize_config, validate_config,
}
use ovm_next.Config.Normalize.Validity.{IsValid}
use ovm_next.Config.Normalize.Resolving.{IsResolved}
use ovm_next.Config.Normalize.Laws.{normalize_config-IsValid}
use ovm_next.Config.Disks.{with_disk, add_disk}
use ovm_next.Config.Disks.RoundTrip.{IsWritable, IsDiskPath, with_disk-format_disk}
use ovm_next.Machine.{Resources, with_resources, krun_resources, with_resources-normalize_config}

abbrev pub host : HostLimits
host = record { num_cpu = 8; total_memory = some 17179869184 }

abbrev pub raw_config : Config
raw_config = record (default_config (some (codes "/h")) (codes "s")) { run_mode = mode_container }

abbrev sized_config : Config
sized_config = record raw_config { cpus = pos 8; memory_mb = 16384 }

raw_config-normalized : normalize_config host raw_config ≡ ok sized_config
unfolding normalize_config default_config get_default_var_disk_path validate_config resolve_memory
    resolve_cpus resolve_texts ◌==◌
raw_config-normalized = refl

normalize_config-IsValid_example : IsValid sized_config × IsResolved host raw_config sized_config
normalize_config-IsValid_example =
    normalize_config-IsValid host raw_config sized_config raw_config-normalized

with_resources-normalize_config_example :
    (r : Resources) × (with_resources 16384 (to_u8 (pos 8)) ≡ ok r)
    × (pos 8 ≡ pos (krun_resources r).0)
    × ((krun_resources r).1 ≡ 16384)
with_resources-normalize_config_example =
    with_resources-normalize_config host raw_config sized_config raw_config-normalized (omega arith)

abbrev numbered_uuid : ℕ → Text
numbered_uuid n = b'u' ∷ n ∷ []

abbrev full_disk : RawDisk
full_disk = record {
  raw_disk_path = codes "/d";
  uuid = codes "u";
  mnt = codes "/m";
  version = codes "v";
}

full_disk-IsWritable : IsWritable full_disk
unfolding trim_space
full_disk-IsWritable = record {
  path =
      IsDiskPath.disk_path (codes "d")
        record { trimmed = refl; end_trimmed = refl; lacks = ((λ e. cc), ((λ e. cc), tt)) };
  uuid = record { trimmed = refl; end_trimmed = refl; lacks = ((λ e. cc), tt) };
  version = record { trimmed = refl; end_trimmed = refl; lacks = ((λ e. cc), tt) };
  mnt = record { trimmed = refl; end_trimmed = refl; lacks = ((λ e. cc), ((λ e. cc), tt)) };
  uuid_given = λ e. cc;
  version_given = λ e. cc;
}

with_disk-format_disk_example :
    with_disk numbered_uuid (codes "/d,uuid=u,version=v,mnt=/m" ∷ []) raw_config 0
    ≡ (add_disk raw_config full_disk, 0)
with_disk-format_disk_example =
    with_disk-format_disk numbered_uuid full_disk raw_config 0 full_disk-IsWritable

abbrev counted_uuid : ℕ → Text
counted_uuid n = n ∷ []

with_disk_test :
    (with_disk counted_uuid
      (codes " /a.img , Version = v2 ,mnt=/x" ∷ codes " " ∷ codes "/b.img,uuid=u" ∷ [])
      (default_config none [])
      7).0.external_disks
    ≡ record {
      raw_disk_path = codes "/a.img";
      uuid = 7 ∷ [];
      mnt = codes "/x";
      version = codes "v2";
    }
      ∷ record {
        raw_disk_path = codes "/b.img";
        uuid = codes "u";
        mnt = [];
        version = default_raw_disk_version;
      }
      ∷ []
unfolding reading_disks default_config
with_disk_test = refl
