-- ===== src/Define.antt =====
-- The constants of pkg/define/const.go and pkg/define/flags.go that the components share.
use ovm_next.Base.{Text, codes}

abbrev pub gvisor : Text
gvisor = codes "gvisor"

abbrev pub tsi : Text
tsi = codes "tsi"

abbrev pub default_raw_disk_version : Text
default_raw_disk_version = codes "v1-0-0-ovm"

abbrev pub var_disk_mount_point : Text
var_disk_mount_point = codes "/var"

abbrev pub var_data_disk_uuid : Text
var_data_disk_uuid = codes "162cf68f-93c7-49ad-be53-45ed0e9fe42b"

abbrev pub xattr_disk_version_key : Text
xattr_disk_version_key = codes "user.vm.rawdisk.version"
