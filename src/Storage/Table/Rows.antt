-- ===== src/Storage/Table/Rows.antt =====
-- The row under a path, and how the statements of internal/storage/repository.go change it.
use bit_rot_detector.Base.{
  String, Option, none, some, List, [], ◌∷◌, ◌++◌, ◌≡◌, ◌∙◌, refl, arith, ◌==◌, string_eq,
  if◌then◌else◌,
}
use bit_rot_detector.Base.Int.{ℤ}
use bit_rot_detector.Base.Moment.{Moment, unix}
use bit_rot_detector.Base.Dict.{Dict, lookup, lookup-insert, NodupKeys, insert-NodupKeys}
use bit_rot_detector.Domain.{FileRecord, stored, scrubbed}
use bit_rot_detector.Storage.Table.{
  Row, mark, to_record, to_row, delete_rows, replace_row, mark_scrubbed, collect_rows,
}

-- The last row with the path: with the primary key, the only one.
abbrev pub find_row : String → List Row → Option Row
find_row p [] = none
find_row p (r ∷ rows) = elim (find_row p rows) [
  | some found ↦ some found
  | none ↦ if p == r.abs_path then some r else none
]

find_row-append :
    (p : String) (rows : List Row) (r : Row)
    → find_row p (rows ++ (r ∷ [])) ≡ (if p == r.abs_path then some r else find_row p rows)
find_row-append p [] r = refl
find_row-append p (x ∷ rows) r = ground (arith, find_row-append p rows r)

pub find_row-delete_rows :
    (p path : String) (rows : List Row)
    → find_row p (delete_rows path rows) ≡ (if p == path then none else find_row p rows)
unfolding delete_rows
find_row-delete_rows p path [] = ground arith
find_row-delete_rows p path (x ∷ rows) = ground (arith, find_row-delete_rows p path rows)

pub find_row-replace_row :
    (p : String) (r : Row) (rows : List Row)
    → find_row p (replace_row r rows) ≡ (if p == r.abs_path then some r else find_row p rows)
unfolding replace_row
find_row-replace_row p r rows = ground (
  arith,
  find_row-append p (delete_rows r.abs_path rows) r,
  find_row-delete_rows p r.abs_path rows,
)

pub find_row-mark_scrubbed :
    (p : String) (now : ℤ) (path : String) (rows : List Row)
    → find_row p (mark_scrubbed now path rows) ≡ (
        if p == path
        then (elim (find_row p rows) [ none ↦ none | some r ↦ some (mark now r) ])
        else find_row p rows)
unfolding mark_scrubbed
find_row-mark_scrubbed p now path [] = ground arith
find_row-mark_scrubbed p now path (x ∷ rows) =
    ground (arith, find_row-mark_scrubbed p now path rows)

pub to_record-mark :
    (now : Moment) (r : Row) → to_record (mark (unix now) r) ≡ scrubbed now (to_record r)
unfolding to_record
to_record-mark now r = refl

-- The map of `GetAllFiles` holds the rows.
pub lookup-collect_rows :
    (p : String) (rows : List Row) (out : Dict FileRecord)
    → lookup p (collect_rows rows out)
      ≡ (elim (find_row p rows) [ none ↦ lookup p out | some r ↦ some (to_record r) ])
unfolding collect_rows
lookup-collect_rows p [] out = refl
lookup-collect_rows p (r ∷ rows) out =
    lookup-collect_rows p rows _ ∙ ground (arith, lookup-insert p r.abs_path (to_record r) out)

pub to_record-to_row : (now : Moment) (r : FileRecord) → to_record (to_row now r) ≡ stored now r
unfolding to_record to_row
to_record-to_row now r = ground arith

pub collect_rows-NodupKeys :
    (rows : List Row) (out : Dict FileRecord) → NodupKeys out → NodupKeys (collect_rows rows out)
unfolding collect_rows
collect_rows-NodupKeys [] out h = h
collect_rows-NodupKeys (r ∷ rows) out h =
    collect_rows-NodupKeys rows _ (insert-NodupKeys r.abs_path (to_record r) out h)
