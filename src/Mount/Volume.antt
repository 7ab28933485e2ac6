-- ===== src/Mount/Volume.antt =====
-- pkg/filesystem/virtio.go: reading the volumes "source:target,options" of the command line. The
-- tag is the start of the target's SHA-256 in hexadecimal, which is a parameter.
pub mod RoundTrip
use ovm_next.Base.{
  ℕ, map, ◌++◌, Text, codes, ◌==◌, cut, cut_before, split, Bool, true, false, List, [], ◌∷◌,
  if◌then◌else◌, Option, none, some, ◌≡◌, refl,
}
use ovm_next.FilePath.{abs, clean}
use ovm_next.Mount.{Mount, virtiofs}

abbrev pub colon : ℕ
colon = b':'

abbrev pub comma : ℕ
comma = b','

-- `pathsFromVolume`: the one path, or source and target.
pub data Paths : Type 0 where
  single : Text → Paths
  both : Text → Text → Paths

abbrev pub paths_of_cut : Text → Option (Text × Text) → Paths
paths_of_cut volume none = Paths.single volume
paths_of_cut volume (some (source, target)) = Paths.both source target

unfoldable pub paths_from_volume : Text → Paths
paths_from_volume volume = paths_of_cut volume (cut colon volume)

unfoldable pub extract_source_path : Paths → Text
extract_source_path (Paths.both source target) = source
extract_source_path (Paths.single path) = cut_before comma path

unfoldable pub extract_target_path : Paths → Text
extract_target_path (Paths.both source target) = cut_before comma target
extract_target_path (Paths.single path) = cut_before comma path

-- The loop over the options.
unfoldable pub read_options : Bool → List Text → Bool
read_options readonly [] = readonly
read_options readonly (o ∷ os) =
    read_options (if o == codes "rw" then false else if o == codes "ro" then true else readonly) os

abbrev last_path : Paths → Text
last_path (Paths.single path) = path
last_path (Paths.both source target) = target

abbrev pub options_of_cut : Option (Text × Text) → Bool
options_of_cut none = false
options_of_cut (some (path, opts)) =
    let (first, others) = split comma opts in read_options false (first ∷ others)

unfoldable pub extract_mount_options : Paths → Bool
extract_mount_options paths = options_of_cut (cut comma (last_path paths))

-- `SplitVolume` without its tag, which no caller reads: source, target and whether it is read-only.
unfoldable pub split_volume : Text → Text × Text × Bool
split_volume volume =
    let paths = paths_from_volume volume in
    (extract_source_path paths, extract_target_path paths, extract_mount_options paths)

module _ (tag_of : Text → Text) where
  -- `NewVirtIoFsMount` and `VirtIoFs.ToMount`
  unfoldable pub virtio_fs_mount : Text → Text → Bool → Mount
  virtio_fs_mount source target read_only = record {
    read_only = read_only;
    source = source;
    tag = tag_of target;
    target = target;
    kind = virtiofs;
    opts = [];
    uuid = [];
  }

  abbrev pub volume_mount : Text → Mount
  volume_mount volume =
      let (source, target, read_only) = split_volume volume in
      virtio_fs_mount source target read_only

  -- `CmdLineMountToMounts`
  unfoldable pub cmd_line_mount_to_mounts : List Text → List Mount
  cmd_line_mount_to_mounts [] = []
  cmd_line_mount_to_mounts (volume ∷ volumes) =
      let mounts = cmd_line_mount_to_mounts volumes in
      if volume == [] then mounts else volume_mount volume ∷ mounts

  -- `withUserProvidedMounts` of pkg/librevm/machine.go, in the working directory `cwd`: the mounts
  -- with the new ones behind them.
  abbrev resolved : Text → Mount → Mount
  resolved cwd m = record m { source = abs cwd (clean m.source) }

  unfoldable pub with_user_provided_mounts : Text → List Text → List Mount → List Mount
  with_user_provided_mounts cwd dirs mounts =
      mounts ++ map (resolved cwd) (cmd_line_mount_to_mounts dirs)

unfoldable pub reading_volumes : Unit {0}
unfolding split_volume extract_mount_options read_options extract_target_path extract_source_path
    paths_from_volume cut split ◌==◌ cmd_line_mount_to_mounts virtio_fs_mount
reading_volumes = tt
