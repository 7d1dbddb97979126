-- ===== src/Retention.antt =====
-- `apply_retention` of rrpp_bridge/operations.py: which backups are kept. The two directories are the
-- names of their files, which can be removed; of an audit entry only the backup is kept.
use rrpp_agent_bridge.Common.{
  ℕ, zero, suc, String, Bool, not, ◌&&◌, List, [], ◌∷◌, ◌++◌, map, drop, leb, select_where, ◌==◌,
  if◌then◌else◌,
}
use rrpp_agent_bridge.Common.Text.{◌⧺◌}
use rrpp_agent_bridge.Catalog.Order.{order_by}
pub mod Bounds

pub record BackupRecord : Type 0 where
  pub id : String
  pub filename : String
  pub kind : String
  pub integrity_status : String
  pub created_at : ℕ

pub record Backups : Type 0 where
  pub backup_records : List BackupRecord
  pub backup_files : List String
  pub export_files : List String
  -- The backups that audit entries say were pruned.
  pub pruned : List String

-- WHERE kind=? AND integrity_status='verified'
abbrev pub is_verified : String → BackupRecord → Bool
is_verified kind row = row.kind == kind && row.integrity_status == "verified"

-- ORDER BY created_at DESC
abbrev pub newer : BackupRecord → BackupRecord → Bool
newer a b = leb b.created_at a.created_at

-- The backups of a kind that are not among the newest.
unfoldable pub expired : String → ℕ → List BackupRecord → List BackupRecord
expired kind keep records = drop keep (order_by newer (select_where (is_verified kind) records))

-- path.unlink(missing_ok=True)
abbrev pub unlink : String → List String → List String
unlink name files = select_where (λ f. not (f == name)) files

-- DELETE FROM backup_records WHERE id=?
abbrev pub delete_record : String → List BackupRecord → List BackupRecord
delete_record id records = select_where (λ r. not (r.id == id)) records

unfoldable pub prune : Bool → BackupRecord → Backups → Backups
prune has_export row backups = record {
  backup_records = delete_record row.id backups.backup_records;
  backup_files = unlink row.filename backups.backup_files;
  export_files =
      if has_export
      then unlink (row.filename ⧺ ".age") backups.export_files
      else backups.export_files;
  pruned = backups.pruned ++ row.id ∷ [];
}

unfoldable pub prune_all : Bool → List BackupRecord → Backups → Backups
prune_all has_export [] backups = backups
prune_all has_export (row ∷ rows) backups = prune_all has_export rows (prune has_export row backups)

unfoldable pub retain : Bool → String → ℕ → Backups → List String × Backups
retain has_export kind keep backups =
    let rows = expired kind keep backups.backup_records in
    (map (λ row. row.filename) rows, prune_all has_export rows backups)

unfoldable pub apply_retention : Bool → Backups → List String × Backups
apply_retention has_export backups =
    let (daily, after_daily) = retain has_export "daily" 7 backups in
    let (monthly, after_monthly) = retain has_export "monthly" 3 after_daily in
    (daily ++ monthly, after_monthly)
