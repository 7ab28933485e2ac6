-- ===== src/Mount/Volume/RoundTrip.antt =====
-- Reading volumes that are written as "source:target" with or without ",ro".
use ovm_next.Base.{
  ℕ, map, ◌++◌, Text, codes, ◌==◌, cut_before, split, Bool, true, false, List, [], ◌∷◌, ◌≡◌, refl,
  Lacks, cut-append, cut_of_Lacks, ap, append-nil, All,
}
use ovm_next.Mount.{Mount}
use ovm_next.Mount.Volume.{
  Paths, colon, comma, paths_from_volume, extract_source_path, extract_target_path,
  extract_mount_options, split_volume, read_options, cmd_line_mount_to_mounts, virtio_fs_mount,
  reading_volumes,
}

-- A source, a target, and whether to mount read-only.
pub record Share : Type 0 where
  pub source : Text
  pub target : Text
  pub read_only : Bool

-- The source holds no colon and the target no comma; the target may hold colons, the source commas.
abbrev pub IsWritable : Share → Type 0
IsWritable s = Lacks colon s.source × Lacks comma s.target

abbrev pub flag : Bool → Text
flag true = comma ∷ codes "ro"
flag false = []

abbrev pub format_share : Share → Text
format_share s = s.source ++ colon ∷ (s.target ++ flag s.read_only)

paths-format :
    (s : Share)
    → Lacks colon s.source
    → paths_from_volume (format_share s) ≡ Paths.both s.source (s.target ++ flag s.read_only)
unfolding paths_from_volume
paths-format s h = rw (cut-append colon s.source (s.target ++ flag s.read_only) h) refl

cut_before_found : (sep : ℕ) (s t : Text) → Lacks sep s → cut_before sep (s ++ sep ∷ t) ≡ s
cut_before_found sep s t h = rw (cut-append sep s t h, cut_before) refl

cut_before_all : (sep : ℕ) (s : Text) → Lacks sep s → cut_before sep s ≡ s
cut_before_all sep s h = rw (cut_of_Lacks sep s h, cut_before) refl

target-format :
    (source target : Text) (b : Bool)
    → Lacks comma target
    → extract_target_path (Paths.both source (target ++ flag b)) ≡ target
unfolding extract_target_path
target-format source target true h = cut_before_found comma target (codes "ro") h
target-format source target false h = rw append-nil (cut_before_all comma target h)

read_ro :
    (let (first, others) = split comma (codes "ro") in read_options false (first ∷ others)) ≡ true
unfolding reading_volumes
read_ro = refl

source_both : (source path : Text) → extract_source_path (Paths.both source path) ≡ source
unfolding extract_source_path
source_both source path = refl

options-format :
    (source target : Text) (b : Bool)
    → Lacks comma target
    → extract_mount_options (Paths.both source (target ++ flag b)) ≡ b
unfolding extract_mount_options
options-format source target true h = rw (cut-append comma target (codes "ro") h) (read_ro)
options-format source target false h = rw (append-nil, cut_of_Lacks comma target h) refl

-- A volume that is written from a source, a target and whether it is read-only is split into these.
pub split_volume-format_share :
    (s : Share) → IsWritable s → split_volume (format_share s) ≡ (s.source, s.target, s.read_only)
unfolding split_volume
split_volume-format_share s (source, target) =
    rw
      (
        paths-format s source,
        target-format s.source s.target s.read_only target,
        options-format s.source s.target s.read_only target,
      )
      (ap (λ source. (source, s.target, s.read_only))
        (source_both s.source (s.target ++ flag s.read_only)))

append-cons-==-[] : (s : Text) (c : ℕ) (t : Text) → ((s ++ c ∷ t) == []) ≡ false
unfolding ◌==◌
append-cons-==-[] [] c t = refl
append-cons-==-[] (d ∷ s) c t = refl

-- The mount that a share says.
abbrev pub mount_of : (Text → Text) → Share → Mount
mount_of tag_of s = record {
  read_only = s.read_only;
  source = s.source;
  tag = tag_of s.target;
  target = s.target;
  kind = codes "virtiofs";
  opts = [];
  uuid = [];
}

-- Volumes that are written from shares, of which no source holds a colon and no target a comma, become one mount each, in their order: of type virtiofs, with
-- the share's source, target and read-only flag, and the tag of its target.
pub cmd_line_mount_to_mounts-format_share :
    (tag_of : Text → Text) (shares : List Share)
    → All IsWritable shares
    → cmd_line_mount_to_mounts tag_of (map format_share shares) ≡ map (mount_of tag_of) shares
unfolding cmd_line_mount_to_mounts virtio_fs_mount
cmd_line_mount_to_mounts-format_share tag_of [] w = refl
cmd_line_mount_to_mounts-format_share tag_of (s ∷ shares) (v, w) =
    rw
      (
        append-cons-==-[] s.source colon (s.target ++ flag s.read_only),
        split_volume-format_share s v,
      )
      (ap (◌∷◌ (mount_of tag_of s)) (cmd_line_mount_to_mounts-format_share tag_of shares w))
