-- ===== src/Csi.antt =====
-- The messages of the Container Storage Interface that the driver reads and writes (generated
-- protobuf code, of which the getters are nil-safe), and gRPC status errors. A map is an association
-- list with distinct keys.
pub mod Maps
pub mod Keys
use truenas_scale_csi.Base.{
  ℕ, ◌+◌, String, Bool, Option, none, some, List, [], ◌∷◌, ℤ, str_eq, eq_ℤ, if◌then◌else◌,
}

-- The codes of google.golang.org/grpc/codes that the driver answers with.
pub data Code : Type 0 where
  unknown invalid_argument not_found permission_denied unimplemented internal out_of_range : Code

-- A Go `error`: one made by `status.Error`, or any other, with the text of its `Error()`.
pub data Error : Type 0 where
  status : Code → String → Error
  plain : String → Error

-- What ends a handler without a response: a Go `error`, or a panic.
pub data Stop : Type 0 where
  returned : Error → Stop
  panicked : Stop

-- `VolumeCapability_AccessMode_Mode`: the modes that the driver names, and every other number.
pub data AccessMode : Type 0 where
  single_node_writer single_node_reader_only multi_node_reader_only : AccessMode
  multi_node_single_writer multi_node_multi_writer : AccessMode
  single_node_single_writer single_node_multi_writer : AccessMode
  other : ℕ → AccessMode

-- The `oneof` of a capability: a file system mount with its type and flags, a block device, or none.
pub data AccessType : Type 0 where
  mount : String → List String → AccessType
  block unset : AccessType

pub record VolumeCapability : Type 0 where
  pub access_mode : AccessMode
  pub access_type : AccessType

pub record CapacityRange : Type 0 where
  pub required_bytes : ℤ
  pub limit_bytes : ℤ

abbrev pub Dict : Type 0
Dict = List (String × String)

-- `m[k]` with the comma-ok form.
unfoldable pub lookup {ℓ} : {V : Type ℓ} → String → List (String × V) → Option V
lookup k [] = none
lookup k ((j, v) ∷ m) = if str_eq j k then some v else lookup k m

-- The same for a map with int32 keys.
unfoldable pub lookup_id {ℓ} : {V : Type ℓ} → ℤ → List (ℤ × V) → Option V
lookup_id k [] = none
lookup_id k ((j, v) ∷ m) = if eq_ℤ j k then some v else lookup_id k m

-- `for _, x := range xs { m[key(x)] = value(x) }`: a later entry takes the place of an earlier one.
unfoldable pub put_all {ℓ} : {X K V : Type ℓ} → (X → K × V) → List (K × V) → List X → List (K × V)
put_all entry m [] = m
put_all entry m (x ∷ xs) = put_all entry (entry x ∷ m) xs

-- `for k := range m { switch k { case …: found++ } }`, over the keys that are looked for.
unfoldable pub found_keys : (String → Bool) → Dict → ℕ
found_keys wanted [] = 0
found_keys wanted ((k, v) ∷ m) =
    let rest = found_keys wanted m in if wanted k then rest + 1 else rest

pub record CreateVolumeRequest : Type 0 where
  pub name : String
  pub capacity_range : Option CapacityRange
  pub volume_capabilities : List VolumeCapability

pub record Volume : Type 0 where
  pub volume_id : String
  pub capacity_bytes : ℤ
  pub volume_context : Dict

pub record ValidateRequest : Type 0 where
  pub volume_id : String
  pub volume_context : Dict
  pub volume_capabilities : List VolumeCapability

-- `ValidateVolumeCapabilitiesResponse_Confirmed`.
pub record Confirmed : Type 0 where
  pub volume_context : Dict
  pub volume_capabilities : List VolumeCapability

pub record GetCapacityResponse : Type 0 where
  pub available_capacity : ℤ
  pub minimum_volume_size : ℤ

pub record ListVolumesResponse : Type 0 where
  pub entries : List Volume
  pub next_token : String
