-- ===== src/Libraries.antt =====
-- The helper functions of third-party modules that the driver calls, as one parameter, and what it
-- relies on of them.
use truenas_scale_csi.Base.{ℕ, String, Bool, List, ◌≡◌, ◌<◌}
use truenas_scale_csi.Csi.{Code, Error, status, plain, AccessMode, AccessType}

pub record Libraries : Type 1 where
  -- `sets.String` of k8s.io/apimachinery: `NewString`, `Insert`, `Len` and `List`.
  pub StringSet : Type 0
  pub new_string : StringSet
  pub insert : StringSet → String → StringSet
  pub len : StringSet → ℕ
  pub list : StringSet → List String
  -- `String()` of an access mode, and `%v` of an access type (generated protobuf code).
  pub mode_text : AccessMode → String
  pub access_type_text : AccessType → String
  -- `Error()` of a gRPC status.
  pub status_text : Code → String → String
  -- `Error()` of what `strconv.ParseInt(s, 10, 64)` returns for a text that it refuses.
  pub parse_error_text : String → String
  -- `IsIPv6String` of k8s.io/utils/net.
  pub is_ipv6_string : String → Bool

-- `err.Error()`
abbrev pub error_text : Libraries → Error → String
error_text L (status code text) = L.status_text code text
error_text L (plain text) = text

-- A set counts its elements: a new one has none, and inserting leaves at least one and never fewer
-- than there were.
pub record IsLawful (L : Libraries) : Type 0 where
  pub len-new_string : L.len L.new_string ≡ 0
  pub len-insert : (s : L.StringSet) (x : String) → 0 < L.len (L.insert s x)
