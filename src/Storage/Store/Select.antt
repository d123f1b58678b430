-- ===== src/Storage/Store/Select.antt =====
-- The selection of `GetFilesForScrub` in internal/storage/repository.go: which files, how many, and
-- in which order.
use Prim.Native.Nat.{zero, suc, min, max}
use bit_rot_detector.Base.{
  ◌-◌, ◌<◌, ℕ, Bool, true, false, not, Option, none, some, List, [], ◌∷◌, ◌++◌, ◌≡◌, ◌≤◌, ◌*◌, refl,
  ap, subst, ◌∙◌, arith, if◌then◌else◌, length, take, length-take, take-append, All, All-prefix,
  All-suffix, ◌⊎◌,
}
use bit_rot_detector.Base.Int.{to_int64-neg, -ℤ_parts, +ℤ_parts, ◌+ℤ◌, ℤ, ltb_ℤ, pos, ◌-ℤ◌}
use bit_rot_detector.Base.Moment.{
  add_signed-zero, add_signed-seconds, hour, add_signed, second, Moment,
}
use bit_rot_detector.Domain.{ok}
use bit_rot_detector.Storage.Table.{
  Row, Database, Engine, select_for_scrub, scrubbed_before, rows_before,
}
use bit_rot_detector.Storage.Store.{
  cutoff, Store, Float64, query, read_files, records, scrub_rows, selected, eligible,
  get_files_for_scrub,
}
use bit_rot_detector.Storage.Store.Laws.{IsOpen, query-IsOpen, rows_of}

-- The order of `last_scrubbed ASC`, in which NULL comes first.
unfoldable pub no_later : Option ℤ → Option ℤ → Bool
no_later none t = true
no_later (some s) none = false
no_later (some s) (some t) = not (ltb_ℤ t s)

-- Each row is no later than the rows after it.
unfoldable pub Ordered : List Row → Type 0
Ordered [] = Unit {0}
Ordered (r ∷ rows) =
    All (λ r'. no_later r.last_scrubbed r'.last_scrubbed ≡ true) rows × Ordered rows

-- What `ORDER BY` does to some rows: it sorts them, and it lists as many and none that was not there.
pub record Orders (engine : Engine) (rows : List Row) : Type 1 where
  pub sorted : Ordered (engine.order_by_last_scrubbed rows)
  pub keeps : length (engine.order_by_last_scrubbed rows) ≡ length rows
  pub same : (P : Row → Type 0) → All P rows → All P (engine.order_by_last_scrubbed rows)

Ordered-append :
    (xs ys : List Row)
    → Ordered (xs ++ ys)
    → All (λ x. All (λ y. no_later x.last_scrubbed y.last_scrubbed ≡ true) ys) xs
unfolding Ordered
Ordered-append [] ys h = tt
Ordered-append (x ∷ xs) ys h = (All-suffix _ xs ys h.0, Ordered-append xs ys h.1)

-- The rows that were never scrubbed, or more than so many days ago; all rows, if there is no minimum age.
unfoldable pub old_enough : Moment → Option ℕ → Row → Bool
old_enough now none r = true
old_enough now (some days) r = elim r.last_scrubbed [
  | none ↦ true
  | some t ↦ ltb_ℤ (t +ℤ pos (days * 86400)) now.sec
]

unfoldable pub aged_rows : Moment → Option ℕ → List Row → List Row
unfolding old_enough
aged_rows now days [] = []
aged_rows now days (r ∷ rows) =
    let rest = aged_rows now days rows in if old_enough now days r then r ∷ rest else rest

-- A minimum age in days whose nanoseconds are an int64.
abbrev pub InRange : Option ℕ → Type 0
InRange none = Unit
InRange (some days) = days ≤ 106751

cutoff-days :
    (now : Moment) (days : ℕ)
    → now.nsec < second
    → days ≤ 106751
    → cutoff now days ≡ now.sec -ℤ pos (days * 86400)
unfolding cutoff
cutoff-days now zero nsec h = add_signed-zero now nsec
cutoff-days now (suc n) nsec h =
    ap (λ d. (add_signed now d).sec)
      (to_int64-neg (suc n * (24 * hour)) (omega arith) (omega arith))
    ∙ add_signed-seconds now (suc n * (24 * hour) - 1) (suc n * 86400) nsec (omega arith)

-- A comparison with a difference.
ltb_ℤ-sub : (t u : ℤ) (d : ℕ) → ltb_ℤ t (u -ℤ pos d) ≡ ltb_ℤ (t +ℤ pos d) u
ltb_ℤ-sub t u d = ground (arith, +ℤ_parts t (pos d), -ℤ_parts u (pos d))

scrubbed_before-old_enough :
    (now : Moment) (days : ℕ) (r : Row)
    → now.nsec < second
    → days ≤ 106751
    → scrubbed_before (cutoff now days) r ≡ old_enough now (some days) r
unfolding scrubbed_before old_enough
scrubbed_before-old_enough now days r nsec h = rw (cutoff-days now days nsec h) (go r.last_scrubbed)
  where
    go :
        (o : Option ℤ)
        → elim o as (λ _. Bool) [ none ↦ true | some t ↦ ltb_ℤ t (now.sec -ℤ pos (days * 86400)) ]
          ≡ elim o as (λ _. Bool) [ none ↦ true | some t ↦ ltb_ℤ (t +ℤ pos (days * 86400)) now.sec ]
    go none = refl
    go (some t) = ltb_ℤ-sub t now.sec (days * 86400)

rows_before-aged :
    (now : Moment) (days : ℕ) (rows : List Row)
    → now.nsec < second
    → days ≤ 106751
    → rows_before (cutoff now days) rows ≡ aged_rows now (some days) rows
unfolding rows_before aged_rows
rows_before-aged now days [] nsec h = refl
rows_before-aged now days (r ∷ rows) nsec h =
    rw (scrubbed_before-old_enough now days r nsec h, rows_before-aged now days rows nsec h) refl

all_rows : (now : Moment) (rows : List Row) → rows ≡ aged_rows now none rows
unfolding aged_rows
all_rows now [] = refl
all_rows now (r ∷ rows) = ap (λ l. r ∷ l) (all_rows now rows)

eligible-aged_rows :
    (now : Moment) (days : Option ℕ) (rows : List Row)
    → now.nsec < second
    → InRange days
    → eligible now days rows ≡ aged_rows now days rows
unfolding eligible
eligible-aged_rows now none rows nsec h = all_rows now rows
eligible-aged_rows now (some days) rows nsec h = rows_before-aged now days rows nsec h

aged_rows-All :
    (now : Moment) (days : Option ℕ) (rows : List Row)
    → All (λ r. old_enough now days r ≡ true) (aged_rows now days rows)
unfolding aged_rows
aged_rows-All now days [] = tt
aged_rows-All now days (r ∷ rows) = go (old_enough now days r) refl (aged_rows-All now days rows)
  where
    go :
        (b : Bool)
        → old_enough now days r ≡ b
        → All (λ r. old_enough now days r ≡ true) (aged_rows now days rows)
        → All
            (λ r. old_enough now days r ≡ true)
            (if b then r ∷ aged_rows now days rows else aged_rows now days rows)
    go true e h = (e, h)
    go false e h = h

-- The percentage of a count, as the float64 operations give it, but at least one and at most all.
selected-eq-min :
    (fl : Float64) (count : ℕ) (percentage : fl.Float)
    → selected fl count percentage
      ≡ min count (max 1 (fl.to_int (fl.div (fl.mul (fl.of_int count) percentage) (fl.of_int 100))))
unfolding selected
selected-eq-min fl count percentage = ground arith

-- The number of files selected is at most the number of those that there are, and at least one if
-- there is one.
pub selected_bounds :
    (fl : Float64) (count : ℕ) (percentage : fl.Float)
    → (selected fl count percentage ≤ count) × (1 ≤ selected fl count percentage ⊎ (count ≡ 0))
unfolding selected
selected_bounds fl count percentage = ground arith

read_files-IsOpen :
    (engine : Engine) (s : Store)
    → ((db : Database) → engine.fails select_for_scrub db ≡ none)
    → IsOpen s
    → read_files (query engine select_for_scrub s) ≡ ok (rows_of (s.disk).shadow)
unfolding read_files
read_files-IsOpen engine s runs good =
    let (db, rows, here, files) = good.tables in
    ap read_files (query-IsOpen engine select_for_scrub s db (runs db) good.alive here)
    ∙ rw (here, files)

get_files_for_scrub-IsOpen :
    (engine : Engine) (fl : Float64) (now : Moment) (percentage : fl.Float) (days : Option ℕ)
    (s : Store)
    → ((db : Database) → engine.fails select_for_scrub db ≡ none)
    → IsOpen s
    → let all = engine.order_by_last_scrubbed (eligible now days (rows_of (s.disk).shadow)) in
      get_files_for_scrub engine fl now percentage days s
      ≡ ok (records (take (selected fl (length all) percentage) all))
unfolding get_files_for_scrub scrub_rows
get_files_for_scrub-IsOpen engine fl now percentage days s runs good =
    ap (scrub_rows engine fl now percentage days) (read_files-IsOpen engine s runs good)

-- On an open repository whose engine runs the query and sorts, with a minimum age, if any, whose
-- nanoseconds are an int64: of the files that were never scrubbed or not for that many days, or of all
-- files without a minimum age, `GetFilesForScrub` returns the percentage of their number as float64 computes
-- it, but at least one and at most all of them; none that it leaves out was scrubbed before one that it returns.
pub get_files_for_scrub_lem :
    (engine : Engine) (fl : Float64) (now : Moment) (percentage : fl.Float) (days : Option ℕ)
    (s : Store)
    → now.nsec < second
    → InRange days
    → Orders engine (aged_rows now days (rows_of (s.disk).shadow))
    → ((db : Database) → engine.fails select_for_scrub db ≡ none)
    → IsOpen s
    → let old = aged_rows now days (rows_of (s.disk).shadow) in
      let count = length old in
      (taken : List Row) × (left : List Row) × (get_files_for_scrub engine fl now percentage days s
        ≡ ok (records taken))
      × (engine.order_by_last_scrubbed old ≡ taken ++ left)
      × (length taken
          ≡ min count
              (max 1 (fl.to_int (fl.div (fl.mul (fl.of_int count) percentage) (fl.of_int 100)))))
      × All (λ r. old_enough now days r ≡ true) taken
      × All (λ t. All (λ l. no_later t.last_scrubbed l.last_scrubbed ≡ true) left) taken
get_files_for_scrub_lem engine fl now percentage days s nsec in_range orders runs good = (
  take n all,
  rest,
  get_files_for_scrub-IsOpen engine fl now percentage days s runs good
      ∙ ap
          (λ rows.
            let sorted = engine.order_by_last_scrubbed rows in
            ok (records (take (selected fl (length sorted) percentage) sorted)))
          (eligible-aged_rows now days (rows_of (s.disk).shadow) nsec in_range),
  split,
  omega (arith, length-take n all, (selected_bounds fl (length all) percentage).0)
      ∙ ap (λ count. selected fl count percentage) orders.keeps
      ∙ selected-eq-min fl (length old) percentage,
  All-prefix _ (take n all) rest (
      subst (All (λ r. old_enough now days r ≡ true)) split
        (orders.same _ (aged_rows-All now days _))),
  Ordered-append (take n all) rest (subst Ordered split orders.sorted),
)
  where
    old : List Row
    old = aged_rows now days (rows_of (s.disk).shadow)

    all : List Row
    all = engine.order_by_last_scrubbed old

    n : ℕ
    n = selected fl (length all) percentage

    rest : List Row
    rest = (take-append n all).0

    split : all ≡ take n all ++ rest
    split = (take-append n all).1
