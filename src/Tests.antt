-- ===== src/Tests.antt =====
-- The data that the tests share: the third-party helpers as plain functions, a driver, requests and servers.
mod Size
mod Caps
mod Nfs
mod Iscsi
mod Controller
mod Node
mod Disk
mod Life
mod Command
mod Refinement
use truenas_scale_csi.Base.{
  ℕ, ◌<◌, String, Bool, true, false, ◌≡◌, refl, Option, none, some, List, [], ◌∷◌, ℤ, pos, length,
  ◌<>◌, arith,
}
use truenas_scale_csi.Csi.{
  AccessMode, AccessType, mount, single_node_writer, VolumeCapability, CapacityRange,
  CreateVolumeRequest, Volume,
}
use truenas_scale_csi.Libraries.{Libraries, IsLawful}
use truenas_scale_csi.Driver.{Driver}
use truenas_scale_csi.TrueNas.Memory.{Call, Memory}

abbrev pub libs : Libraries
libs = record {
  StringSet = List String;
  new_string = [];
  insert = λ s x. x ∷ s;
  len = length;
  list = λ s. s;
  mode_text = λ m. "mode";
  access_type_text = λ t. "type";
  status_text = λ c s. "rpc error: " <> s;
  parse_error_text = λ s. "strconv.ParseInt: parsing " <> s;
  is_ipv6_string = λ s. false;
}

pub libs-IsLawful : IsLawful libs
libs-IsLawful = record { len-new_string = refl; len-insert = λ s x. omega arith }

abbrev pub driver : Driver
driver = record {
  name = "nfs.truenas-scale.terricain.github.com";
  base_url = "http://nas.local/api/v2.0";
  address = "nas.local";
  nfs_storage_path = "tank/nfs";
  iscsi_storage_path = "tank/iscsi";
  node_id = "node-1";
  is_controller = true;
  is_nfs = true;
  portal_id = pos 1;
  iscsi_config_dir = "/csi/iscsi_config";
  endpoint = "unix:///csi/csi.sock";
  ready = true;
}

abbrev pub mount_cap : VolumeCapability
mount_cap = record { access_mode = single_node_writer; access_type = mount "ext4" [] }

abbrev pub two_gib : CapacityRange
two_gib = record { required_bytes = pos 2147483648; limit_bytes = pos 0 }

abbrev pub request : CreateVolumeRequest
request = record {
  name = "pvc-1";
  capacity_range = some two_gib;
  volume_capabilities = mount_cap ∷ [];
}

abbrev pub empty_server : Memory
empty_server = record {
  stored = [];
  shares = [];
  extents = [];
  initiators = [];
  targets = [];
  target_extents = [];
  next = 1;
  old_api = true;
}

-- Every call is answered.
abbrev pub all_up : Call → Bool
all_up c = false
