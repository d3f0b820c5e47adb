-- ===== src/Nfs/Steps.antt =====
-- The two steps of creating an NFS volume (pkg/driver/nfs.go).
pub mod Datasets
pub mod Shares
pub use Datasets.{ensure_dataset-found, ensure_dataset-again, ensure_dataset-Extends}
pub use Shares.{ensure_share-found, ensure_share-again}
