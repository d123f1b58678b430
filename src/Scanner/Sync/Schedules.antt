-- ===== src/Scanner/Sync/Schedules.antt =====
-- Runs of `SyncDirectory` with a given interleaving: one that always ends, and one in which a
-- cancellation goes unnoticed.
use bit_rot_detector.Base.{
  ◌+◌, ◌∙◌, sym, ap, subst, String, true, false, Option, ◌≡◌, refl, ◌≢◌, arith, string_eq,
  if◌then◌else◌, List, [], ◌∷◌, ◌++◌, length, length-append, nil_of_length, cons_of_length,
  All-append,
}
use bit_rot_detector.Base.Moment.{Moment}
use bit_rot_detector.Base.Dict.{Dict}
use bit_rot_detector.Domain.{Result, FileRecord, WorkItem, Repository}
use bit_rot_detector.Domain.Lawful.{IsLawful, IsReliable}
use bit_rot_detector.Scanner.Walk.{WalkEvent, failed, found}
use bit_rot_detector.Scanner.Classify.{work_item, compute, pick}
use bit_rot_detector.Scanner.Sync.{
  State, Choice, walks, collects, cancels, start, visit, take_result, collect, step, run, walk_on,
}
use bit_rot_detector.Scanner.Sync.Effect.{collect-Frame}
use bit_rot_detector.Scanner.Sync.Invariant.{Uncancelled}
use bit_rot_detector.Scanner.Sync.Exact.{IsComplete}

-- The same choice for every entry of a list.
abbrev for_each {ℓ} : {A : Type ℓ} → Choice → List A → List Choice
for_each c [] = []
for_each c (x ∷ xs) = c ∷ for_each c xs

found_in : List WalkEvent → List String
found_in [] = []
found_in (failed message ∷ events) = found_in events
found_in (found path stamp ∷ events) = path ∷ found_in events

-- The walk goes first, and then the items are taken in the order in which they were sent.
unfoldable pub walk_then : Choice → List WalkEvent → List Choice
unfolding found_in
walk_then c events = for_each walks events ++ for_each c (found_in events)

module _ {Float : Type 0} {R : Repository Float} (L : IsLawful R) {Good : R.State → Type 0}
    (rel : IsReliable R Good) (hash_of : String → Result String)
    (added_now seen_now : String → Moment) (db_files : Dict FileRecord) where
  abbrev Run : List Choice → State R → State R
  Run = run R hash_of added_now seen_now db_files

  for_each-ne {ℓ} :
      {A : Type ℓ} (c : Choice) (xs : List A) → c ≢ cancels → Uncancelled (for_each c xs)
  for_each-ne c [] h = tt
  for_each-ne c (x ∷ xs) h = (h, for_each-ne c xs h)

  run-append : (cs ds : List Choice) (s : State R) → Run (cs ++ ds) s ≡ Run ds (Run cs s)
  unfolding run
  run-append [] ds s = refl
  run-append (c ∷ cs) ds s = run-append cs ds _

  -- What the walk of the entries leaves alone, and how many items it sends.
  record Walked (s t : State R) (events : List WalkEvent) : Type 0 where
    ended : t.todo ≡ []
    sent : length t.pending ≡ length s.pending + length (found_in events)
    repo : t.repo ≡ s.repo
    cancelled : t.cancelled ≡ s.cancelled
    aborted : t.aborted ≡ s.aborted
    walk_err : t.walk_err ≡ s.walk_err

  run-walks :
      (events : List WalkEvent) (s : State R)
      → s.todo ≡ events
      → Walked s (Run (for_each walks events) s) events
  unfolding run found_in step walk_on visit
  run-walks [] s e = record {
    ended = e;
    sent = omega arith;
    repo = refl;
    cancelled = refl;
    aborted = refl;
    walk_err = refl;
  }
  run-walks (failed message ∷ events) s e = rw e (
      let w =
        run-walks events
          (step R hash_of added_now seen_now db_files walks
            (record s { todo = failed message ∷ events }))
          refl in
      record {
        ended = w.ended;
        sent = w.sent;
        repo = w.repo;
        cancelled = w.cancelled;
        aborted = w.aborted;
        walk_err = w.walk_err;
      })
  run-walks (found path stamp ∷ events) s e = rw e (
      let w =
        run-walks events
          (step R hash_of added_now seen_now db_files walks
            (record s { todo = found path stamp ∷ events }))
          refl in
      record {
        ended = w.ended;
        sent = omega (arith, w.sent, length-append s.pending (work_item db_files path stamp ∷ []));
        repo = w.repo;
        cancelled = w.cancelled;
        aborted = w.aborted;
        walk_err = w.walk_err;
      })

  step-collects :
      (w : WorkItem) (rest : List WorkItem) (s : State R)
      → s.cancelled ≡ false
      → s.aborted ≡ false
      → s.pending ≡ w ∷ rest
      → step R hash_of added_now seen_now db_files (collects 0) s
        ≡ collect R hash_of added_now seen_now db_files
            (compute hash_of w)
            (record s { pending = rest })
  unfolding step take_result pick
  step-collects w rest s live going form =
      subst (λ b. (if b then s else taken (pick 0 s.pending)) ≡ next) (sym going)
        (subst (λ items. taken (pick 0 items) ≡ next) (sym form)
          (subst (λ b. (if b then record s { pending = rest; aborted = true } else next) ≡ next)
            (sym live) refl))
    where
      taken : Option (WorkItem × List WorkItem) → State R
      taken o = take_result R hash_of added_now seen_now db_files o s

      next : State R
      next =
          collect R hash_of added_now seen_now db_files (compute hash_of w)
            (record s { pending = rest })

  -- The items left are taken one by one.
  run-collects {ℓ} :
      {A : Type ℓ} (xs : List A) (s : State R)
      → Good s.repo
      → s.cancelled ≡ false
      → s.aborted ≡ false
      → length s.pending ≡ length xs
      → (let t = Run (for_each (collects 0) xs) s in (t.todo ≡ s.todo) × (t.pending ≡ []))
  unfolding run step take_result pick
  run-collects [] s good live going e = (refl, nil_of_length s.pending e)
  run-collects (x ∷ xs) s good live going e =
      let (w, rest, form, count) = cons_of_length s.pending (length xs) e in
      let t =
        collect R hash_of added_now seen_now db_files (compute hash_of w)
          (record s { pending = rest }) in
      let f =
        collect-Frame L rel hash_of added_now seen_now db_files (compute hash_of w)
          (record s { pending = rest }) good in
      let (todo, pending) =
        run-collects xs t f.good (f.cancelled ∙ live) (f.aborted ∙ going)
          (ap length f.pending ∙ count) in
      subst (λ u. let t = Run (for_each (collects 0) xs) u in (t.todo ≡ s.todo) × (t.pending ≡ []))
        (sym (step-collects w rest s live going form)) (todo ∙ f.todo, pending)

  -- For the events of every walk, over a repository whose writes succeed, there is an interleaving
  -- of the model, in which no send waits, that runs to its end without a cancellation: the
  -- walk goes first, and then the results are taken in the order in which the items were sent.
  pub run-IsComplete :
      (events : List WalkEvent) (repo : R.State)
      → Good repo
      → Uncancelled (walk_then (collects 0) events)
        × IsComplete R (
            run R hash_of added_now seen_now db_files
              (walk_then (collects 0) events)
              (start R events repo))
  unfolding walk_then
  run-IsComplete events repo good = (
    All-append _ (for_each walks events) (for_each (collects 0) (found_in events))
        (for_each-ne walks events (λ e. cc)) (for_each-ne (collects 0) (found_in events) (λ e. cc)),
    rw run-append (
        let t = Run (for_each walks events) (start R events repo) in
        let w = run-walks events (start R events repo) refl in
        let (todo, pending) =
          run-collects (found_in events) t (subst Good (sym w.repo) good) w.cancelled w.aborted
            (omega (arith, w.sent)) in
        (todo ∙ w.ended, pending)),
  )
