-- ===== src/Guest/System.antt =====
-- What the agent asks of the system that it runs in. A call that may fail says whether it succeeded.
use ovm_next.Base.{ℕ, Text, Bool, List, Option}
use ovm_next.Http.Client.{Transport}
use ovm_next.Mount.Guest.{Guest}
use ovm_next.Build.Spec.{Machine}

-- `os.Remove`; a file that is not there is an error of its own.
pub data Removal : Type 0 where
  removed absent refused : Removal

pub record System (W : Type 0) : Type 1 where
  -- The wait for a tick or for the context's end; false is the end.
  pub tick : W → W × Bool
  pub net : Transport W
  pub kernel : Guest W
  pub make_dir : Text → ℕ → W → W × Bool
  pub write_file : Text → Text → ℕ → W → W × Bool
  pub remove : Text → W → W × Removal
  pub mount_tmpfs : Text → W → W × Bool
  -- `json.Marshal` and `json.Unmarshal` of a machine
  pub encode : Machine → Text
  pub decode : Text → Option Machine
  -- The program `dropbearmulti` with its arguments
  pub run_dropbear : List Text → W → W × Bool
  -- `netlink.LinkByName`, `netlink.LinkSetUp` and `net.InterfaceByName`
  pub find_link : Text → W → Bool
  pub set_link_up : Text → W → W × Bool
  pub find_interface : Text → W → Bool
  -- The DHCP client: a request gives the configuration of a lease that is complete.
  pub open_dhcp : Text → W → W × Bool
  pub request_lease : W → W × Option Text
  pub close_dhcp : W → W
  -- `ConversationToNetconfv4`
  pub conversation : Text → Option Text
  pub configure_interface : Text → Text → W → W × Bool
  -- `net.Listen` on a Unix socket
  pub listen : Text → W → W × Bool
  -- The variable LOG_LEVEL, `logrus.ParseLevel`, and the level that is set
  pub log_level_variable : Text
  pub is_log_level : Text → Bool
  pub log_level : Text

-- `_ = os.Remove(path)`
abbrev pub drop : {W : Type 0} → System W → Text → W → W
drop sys path w = (sys.remove path w).0
