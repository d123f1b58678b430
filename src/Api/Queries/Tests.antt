-- ===== src/Api/Queries/Tests.antt =====
-- Two drives, each with one run, whose numbers are 1 and 2.
use Prim.Native.String.{[] as empty, ◌∷◌ as ◌then◌}
use Prim.Native.Char.{nul}
use bit_rot_detector.Base.{arith, ◌≤◌, length, ℕ, zero, suc, All, ap}
use bit_rot_detector.Base.Moment.{at_unix}
use bit_rot_detector.Api.Queries.Export.{
  all_runs, runs_at, Formatting, handle_export, read_export, read_export-handle_export,
}
use bit_rot_detector.Base.{
  String, Option, none, some, [], ◌∷◌, ◌==◌, ◌≡◌, refl, string_eq, nat_eq, if◌then◌else◌,
}
use bit_rot_detector.Base.Int.{ℤ, pos, int_eq}
use bit_rot_detector.Storage.Store.Tests.{plain_engine, finished}
use bit_rot_detector.Storage.History.{get_runs_by_ids, read_runs, query_runs, query_table, runs_in}
use bit_rot_detector.Domain.{RunRecord}
use bit_rot_detector.Api.Queries.{
  Databases, found, delta, numbers, keep, pick, pick_paths, handle_compare,
}
use bit_rot_detector.Api.Queries.Compare.{Compared, handle_compare_lem}

abbrev first : RunRecord
first = record finished { id = 1 }

abbrev second : RunRecord
second = record finished { id = 2; files_corrupted = 4 }

abbrev drives : Databases
drives = record {
  engine = plain_engine;
  opening = λ p. none;
  prod = λ p. some (record {
    files = none;
    run_history = some ((if p == "/a" then first else second) ∷ []);
    next_id = 3;
  });
}

abbrev parse : String → Option ℤ
parse s = some (pos (if s == "1" then 1 else 2))

compares :
    handle_compare drives parse "1" "2" ("/a" ∷ "/b" ∷ [])
    ≡ found (first, second, delta first second)
unfolding handle_compare pick_paths pick keep numbers get_runs_by_ids read_runs query_runs
    query_table runs_in string_eq nat_eq int_eq
compares = refl

handle_compare_lem_example :
    Compared drives parse
      ("/a" ∷ "/b" ∷ [])
      "1"
      "2"
      (handle_compare drives parse "1" "2" ("/a" ∷ "/b" ∷ []))
handle_compare_lem_example = handle_compare_lem drives parse ("/a" ∷ "/b" ∷ []) "1" "2"

-- A number as so many signs.
strokes : ℕ → String
strokes zero = empty
strokes (suc n) = nul then strokes n

count : String → ℕ
count empty = 0
count (c then s) = suc (count s)

count-strokes : (n : ℕ) → count (strokes n) ≡ n
unfolding count strokes
count-strokes zero = refl
count-strokes (suc n) = ap suc (count-strokes n)

abbrev unary : Formatting
unary = record { itoa = strokes; rfc_3339 = λ t. "1970-01-01T00:11:40Z" }

times :
    All
      (λ r. some (at_unix (pos 700)) ≡ some r.started_at)
      (all_runs plain_engine drives.prod ("/a" ∷ "/b" ∷ []))
unfolding all_runs runs_at string_eq
times = (refl, (refl, tt))

small : All (λ p. length (runs_at plain_engine (drives.prod p)) ≤ 10_000) ("/a" ∷ "/b" ∷ [])
unfolding runs_at
small = (omega arith, (omega arith, tt))

read_export-handle_export_example :
    read_export
      (λ s. some (count s))
      (λ s. some (at_unix (pos 700)))
      (handle_export unary drives "csv" ("/a" ∷ "/b" ∷ []))
    ≡ some (all_runs plain_engine drives.prod ("/a" ∷ "/b" ∷ []))
read_export-handle_export_example =
    read_export-handle_export unary (λ s. some (count s)) (λ s. some (at_unix (pos 700)))
      (λ n. ap some (count-strokes n)) drives "csv" ("/a" ∷ "/b" ∷ []) (λ p. refl) (λ db. refl)
      small times
