-- ===== src/Retention/Bounds.antt =====
-- How many backups `apply_retention` of rrpp_bridge/operations.py keeps.
use rrpp_agent_bridge.Common.{
  ℕ, zero, suc, ◌+◌, ◌≤◌, String, Bool, true, not, ◌&&◌, ◌||◌, List, [], ◌∷◌, ◌≡◌, refl, ◌∙◌, arith,
  any_where, count_where, drop, select_where, ◌==◌, ==-refl,
}
use rrpp_agent_bridge.Catalog.Order.{insert_row, order_by}
use rrpp_agent_bridge.Retention.{
  apply_retention, BackupRecord, Backups, delete_record, expired, is_verified, newer, prune,
  prune_all, retain,
}

abbrev Test : Type 0
Test = BackupRecord → Bool

count-cong :
    (p q : Test) (l : List BackupRecord)
    → ((r : BackupRecord) → p r ≡ q r)
    → count_where p l ≡ count_where q l
unfolding count_where
count-cong p q [] h = refl
count-cong p q (r ∷ l) h = ground (arith, h r, count-cong p q l h)

count-insert :
    (p : Test) (row : BackupRecord) (l : List BackupRecord)
    → count_where p (insert_row newer row l) ≡ count_where p (row ∷ l)
unfolding count_where insert_row
count-insert p row [] = refl
count-insert p row (r ∷ l) = ground (arith, count-insert p row l)

count-order_by :
    (p : Test) (l : List BackupRecord) → count_where p (order_by newer l) ≡ count_where p l
unfolding count_where order_by
count-order_by p [] = refl
count-order_by p (r ∷ l) = count-insert p r (order_by newer l) ∙ ground (arith, count-order_by p l)

count-select :
    (p q : Test) (l : List BackupRecord)
    → count_where q (select_where p l) ≡ count_where (λ r. p r && q r) l
unfolding count_where select_where
count-select p q [] = refl
count-select p q (r ∷ l) = ground (arith, count-select p q l)

-- A row that is deleted along with some.
abbrev gone : List BackupRecord → BackupRecord → Bool
gone rows r = any_where (λ d. r.id == d.id) rows

unfoldable left : List BackupRecord → List BackupRecord → List BackupRecord
left [] l = l
left (row ∷ rows) l = left rows (delete_record row.id l)

count-left :
    (p : Test) (rows l : List BackupRecord)
    → count_where p (left rows l) ≡ count_where (λ r. p r && not (gone rows r)) l
unfolding left any_where
count-left p [] l = count-cong _ _ l (λ r. ground arith)
count-left p (row ∷ rows) l =
    count-left p rows (delete_record row.id l)
    ∙ count-select _ _ l
    ∙ count-cong _ _ l (λ r. ground arith)

count-le :
    (p q : Test) (l : List BackupRecord)
    → ((r : BackupRecord) → (not (p r) || q r) ≡ true)
    → count_where p l ≤ count_where q l
unfolding count_where
count-le p q [] h = omega arith
count-le p q (r ∷ l) h = ground (arith, h r, count-le p q l h)

-- Nothing is left of rows that are deleted.
count-gone : (rows : List BackupRecord) → count_where (λ r. not (gone rows r)) rows ≡ 0
unfolding count_where any_where
count-gone [] = refl
count-gone (row ∷ rows) = ground (
  arith,
  ==-refl row.id,
  count-gone rows,
  count-le (λ r. not (gone (row ∷ rows) r)) (λ r. not (gone rows r)) rows (λ r. ground arith),
)

count-drop :
    (p : Test) (n : ℕ) (l : List BackupRecord) → count_where p l ≤ n + count_where p (drop n l)
unfolding count_where
count-drop p zero l = omega arith
count-drop p (suc n) [] = omega arith
count-drop p (suc n) (r ∷ l) = ground (arith, count-drop p n l)

left-bound :
    (kind : String) (keep : ℕ) (l : List BackupRecord)
    → count_where (is_verified kind) (left (expired kind keep l) l) ≤ keep
unfolding expired
left-bound kind keep l =
    let o = order_by newer (select_where (is_verified kind) l) in
    let rows = drop keep o in
    let stays = λ (r : BackupRecord). not (gone rows r) in
    omega (
      arith,
      count-left (is_verified kind) rows l,
      count-select (is_verified kind) stays l,
      count-order_by stays (select_where (is_verified kind) l),
      count-drop stays keep o,
      count-gone rows,
    )

left-le : (p : Test) (rows l : List BackupRecord) → count_where p (left rows l) ≤ count_where p l
left-le p rows l =
    omega
      (arith, count-left p rows l, count-le (λ r. p r && not (gone rows r)) p l (λ r. ground arith))

prune_all-left :
    (has_export : Bool) (rows : List BackupRecord) (b : Backups)
    → (prune_all has_export rows b).backup_records ≡ left rows b.backup_records
unfolding prune_all prune left
prune_all-left has_export [] b = refl
prune_all-left has_export (row ∷ rows) b = prune_all-left has_export rows (prune has_export row b)

-- After the retention there are at most seven verified daily backups and three verified monthly ones,
-- however many there were, and of no selection of backups are there more than before.
pub apply_retention-bounds :
    (has_export : Bool) (b : Backups)
    → let records = (apply_retention has_export b).1.backup_records in
      (count_where (is_verified "daily") records ≤ 7)
      × (count_where (is_verified "monthly") records ≤ 3)
      × ((p : BackupRecord → Bool) → count_where p records ≤ count_where p b.backup_records)
unfolding apply_retention retain
apply_retention-bounds has_export b =
    let first = expired "daily" 7 b.backup_records in
    let middle = prune_all has_export first b in
    let kept = left first b.backup_records in
    let second = expired "monthly" 3 kept in
    rw
      (
        prune_all-left has_export (expired "monthly" 3 middle.backup_records) middle,
        prune_all-left has_export first b,
      )
      (
        omega (
          arith,
          left-le (is_verified "daily") second kept,
          left-bound "daily" 7 b.backup_records,
        ),
        left-bound "monthly" 3 kept,
        λ p. omega (arith, left-le p second kept, left-le p first b.backup_records),
      )
