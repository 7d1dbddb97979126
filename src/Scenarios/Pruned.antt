-- ===== src/Scenarios/Pruned.antt =====
-- The theorem on the retention of backups, at a concrete input: eight daily backups.
use rrpp_agent_bridge.Common.{ℕ, ◌≤◌, String, Bool, true, [], ◌∷◌, count_where}
use rrpp_agent_bridge.Retention.{apply_retention, BackupRecord, Backups, is_verified}
use rrpp_agent_bridge.Retention.Bounds.{apply_retention-bounds}

abbrev daily : String → ℕ → BackupRecord
daily id t = record {
  id = id;
  filename = id;
  kind = "daily";
  integrity_status = "verified";
  created_at = t;
}

abbrev backups : Backups
backups = record {
  backup_records =
      daily "bak_1" 1
      ∷ daily "bak_2" 2
      ∷ daily "bak_3" 3
      ∷ daily "bak_4" 4
      ∷ daily "bak_5" 5
      ∷ daily "bak_6" 6
      ∷ daily "bak_7" 7
      ∷ daily "bak_8" 8
      ∷ [];
  backup_files = "bak_1" ∷ "bak_2" ∷ [];
  export_files = "bak_1.age" ∷ [];
  pruned = [];
}

apply_retention-bounds_example :
    let records = (apply_retention true backups).1.backup_records in
    (count_where (is_verified "daily") records ≤ 7)
    × (count_where (is_verified "monthly") records ≤ 3)
    × ((p : BackupRecord → Bool) → count_where p records ≤ count_where p backups.backup_records)
apply_retention-bounds_example = apply_retention-bounds true backups
