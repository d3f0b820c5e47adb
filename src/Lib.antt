-- ===== src/Lib.antt =====
-- The TrueNAS Scale CSI driver: a Container Storage Interface plugin that provisions NFS shares and iSCSI
-- block devices on a TrueNAS server through its HTTP API.
--
-- A request comes to the controller service (pkg/driver/controller.go), which checks its fields and
-- passes it to the NFS back end (pkg/driver/nfs.go) or the iSCSI one (pkg/driver/iscsi.go). A back
-- end looks on the server for what the volume needs, with the finders of pkg/driver/nfs_utils.go and
-- pkg/driver/iscsi_utils.go, creates what is missing, and answers with the volume. Nothing is kept
-- in the driver between calls: the state is the server's. On a node, the node service (pkg/driver/node.go)
-- mounts what the controller made: an NFS share (pkg/driver/nfs.go), or the device of an iSCSI target, which it
-- connects to first (pkg/driver/iscsi_node_utils.go) and whose connection it keeps in a file until the last mount
-- is gone. cmd/truenas-csi-plugin/main.go makes a driver of either kind from its flags and runs it.
--
-- The files:
--   Base: shared types, tests, lists, integers, results and texts. `Exec S E A` is code over a state
--     `S` that answers with a value or an error and goes on with the state either way.
--   Csi: the protobuf messages and gRPC errors; Csi/Maps: lemmas on Go's maps as association lists.
--   Libraries: third-party helper functions, as a parameter.
--   Driver: the `Driver` struct of pkg/driver/driver.go. Driver/New: `NewDriver`; Driver/Version: `GetVersion`;
--     Driver/Run: `Run` up to the listener, and the identity service of pkg/driver/identity.go; Driver/Life: `Run`
--     and its goroutines as a step relation, in any order with signals and calls.
--   TrueNas: the API client (github.com/terricain/truenas-go-sdk) as a parameter, a record of calls over an
--     unknown server. TrueNas/Find: the finders. TrueNas/Laws: what the driver relies on of the
--     server, as hypotheses. TrueNas/Memory: a server kept in memory that meets them, any of
--     whose calls can be switched off.
--   Size: `extractStorage`, `formatBytes` and `getServerFromSource` of pkg/driver/utils.go, and the sizes
--     of pkg/driver/controller.go.
--   Caps: `nfsCheckCaps`, `iscsiCheckCaps` and their lists of access modes.
--   Nfs: `nfsCreateVolume`, `nfsDeleteVolume`, `nfsValidateVolumeCapabilities`, `nfsGetCapacity` and
--     `nfsListVolumes`; the files below it hold the proofs, by operation.
--   Host: the node, as a parameter: the calls of the os package and of k8s.io/mount-utils. Host/Laws: what
--     is relied on of them. Host/Table: a node that meets it.
--   Nfs/Refinement: creating and deleting NFS volumes against a set of names.
--   Nfs/Node: `nfsNodePublishVolume` and `nfsNodeUnpublishVolume`.
--   Iscsi: the steps and the clean-up functions of `iscsiCreateVolume`; Iscsi/Create: the whole of it;
--     Iscsi/Delete: `iscsiDeleteVolume`; Iscsi/Query: `iscsiValidateVolumeCapabilities`,
--     `iscsiGetCapacity` and `iscsiListVolumes`; the other files below hold the proofs.
--   Iscsi/Info: the pure part of pkg/driver/iscsi_node_iscsi.go: `getISCSIInfo`, the secrets and
--     `buildISCSIConnector`, over encoding/json as a parameter.
--   Iscsi/Disk: `AttachDisk` and `DetachDisk`, over the connector, the mounter and the files of the node as a
--     parameter. Iscsi/Disk/Laws: what is relied on of them; Iscsi/Disk/Table: a node that meets it.
--   Iscsi/Node: `iscsiNodePublishVolume` and `iscsiNodeUnpublishVolume`; a panic is an outcome of its own.
--     Iscsi/Node/Tracked: sequences of them against a table of what is published where.
--   Node: the `Driver` methods of pkg/driver/node.go.
--   Command: cmd/truenas-csi-plugin/main.go from the flags to the driver, and cmd/iscsiadm/main.go.
--   Controller: the `Driver` methods of pkg/driver/controller.go.
--   Tests: witnesses, at which the theorems are applied to runs on the server in memory.
--
-- Loops are structural recursion on the list that they walk, so no function needs fuel but the
-- rounding of `float64` in Size, where ten steps are enough for a magnitude below 2^63. An int64 or int32
-- is an integer whose range is not tracked: the code that is modelled compares and divides such
-- numbers, never adds or multiplies them, and narrows one, the LUN, where the wrap-around is written out.
--
-- Not modelled: logging and flag parsing; the HTTP exchange behind the API client, and the client that
-- `NewDriver` configures; `url.Parse`, encoding/json and the calls of os, net and syscall, which are parameters;
-- the programs cmd/truenas-csi-test and cmd/truenas-iscsi-test, which call the API by hand. Calls that run at the
-- same time are not interleaved: each handler runs as one sequence of API calls or of calls on the node.
pub mod Base
pub mod Csi
pub mod Libraries
pub mod Caps
pub mod Driver
pub mod TrueNas
pub mod Nfs
pub mod Iscsi
pub mod Size
pub mod Controller
pub mod Host
pub mod Node
pub mod Command
mod Tests
