-- ===== src/Scheduler/Runs.antt =====
-- What the runner of internal/scheduler/schedule.go triggers over a whole run, and what a restart finds.
use bit_rot_detector.Base.{
  String, Bool, true, false, ◌&&◌, Option, none, some, List, [], ◌∷◌, ◌++◌, map, ◌≡◌, refl, sym, ap,
  subst, ◌∙◌, arith, ◌==◌, string_eq, All, append_assoc, append-nil, if◌then◌else◌,
}
use bit_rot_detector.Base.Int.{ℤ}
use bit_rot_detector.Base.Moment.{Moment}
use bit_rot_detector.Domain.{Result, ok, err}
use bit_rot_detector.Scheduler.{ScheduleEntry, Clock, upsert, is_due, check_each, check}
use bit_rot_detector.Scheduler.Tick.{DistinctIds, triggers, marked, triggered_in, check_lem}
use bit_rot_detector.Scheduler.Stored.{
  Json, Store, Write, Tick, new, persist, upsert_stored, trigger_due, trigger_each, run_ticks,
}

new_decoded :
    (json : Json) (path raw : String) (xs : List ScheduleEntry)
    → (path == "") ≡ false
    → json.unmarshal raw ≡ some xs
    → new json path (some raw) ≡ record { entries = xs; file_path = path }
unfolding new
new_decoded json path raw xs named decoded = rw (named, decoded) refl

module _ (json : Json) where
  -- If `Upsert` returns no error on a store with a file, and the encoding of the new entries is decoded
  -- to them, a store that a restart makes of that file has exactly the new entries.
  pub upsert_stored-new :
      (write : Write) (e : ScheduleEntry) (s : Store) (file : Option String)
      → (s.file_path == "") ≡ false
      → ((raw : String)
          → json.marshal (upsert e s.entries) ≡ ok raw
          → json.unmarshal raw ≡ some (upsert e s.entries))
      → (upsert_stored json write e s file).0 ≡ none
      → new json s.file_path (upsert_stored json write e s file).2
        ≡ record s { entries = upsert e s.entries }
  unfolding upsert_stored persist
  upsert_stored-new write e s file named decodes done =
      go (s.file_path == "") (json.marshal xs) refl write named done
    where
      xs : List ScheduleEntry
      xs = upsert e s.entries

      kept : Bool → Result String → Write → Option String × Option String
      kept b m w = if b then (none, file) else elim m [
        | err e ↦ (some e, file)
        | ok raw ↦ elim w [ none ↦ (none, some raw) | some (e, left) ↦ (some e, left) ]
      ]

      go :
          (b : Bool) (m : Result String)
          → json.marshal xs ≡ m
          → (w : Write) → b ≡ false
          → (kept b m w).0 ≡ none
          → new json s.file_path (kept b m w).1 ≡ record s { entries = xs }
      go true m coded w h k = absurd (ground (arith, h))
      go false (err message) coded w h k = absurd (ground (arith, k))
      go false (ok raw) coded (some (message, left)) h k = absurd (ground (arith, k))
      go false (ok raw) coded none h k =
          new_decoded json s.file_path raw xs named (decodes raw coded)

-- The triggers so far do not matter.
check_each-append :
    (atoi : String → Option ℤ) (now : Moment) (clock : Clock)
    (snapshot entries : List ScheduleEntry) (before ids : List String)
    → check_each atoi now clock snapshot (entries, before ++ ids) ≡ (
        let (after, more) = check_each atoi now clock snapshot (entries, ids) in
        (after, before ++ more))
unfolding check_each
check_each-append atoi now clock [] entries before ids = refl
check_each-append atoi now clock (e ∷ snapshot) entries before ids =
    go (e.enabled && is_due atoi e clock) (check_each-append atoi now clock snapshot)
  where
    go :
        (b : Bool)
        → ((entries : List ScheduleEntry) (before ids : List String)
            → check_each atoi now clock snapshot (entries, before ++ ids) ≡ (
                let (after, more) = check_each atoi now clock snapshot (entries, ids) in
                (after, before ++ more)))
        → check_each atoi now clock snapshot (
            if b
            then (upsert (record e { last_run = now }) entries, (before ++ ids) ++ (e.id ∷ []))
            else (entries, before ++ ids))
          ≡ (let (after, more) = check_each atoi now clock snapshot (
                if b
                then (upsert (record e { last_run = now }) entries, ids ++ (e.id ∷ []))
                else (entries, ids)) in
              (after, before ++ more))
    go true next =
        ap
          (λ l.
            check_each atoi now clock snapshot (upsert (record e { last_run = now }) entries, l))
          (append_assoc before ids (e.id ∷ []))
        ∙ next _ before (ids ++ (e.id ∷ []))
    go false next = next entries before ids

module _ (atoi : String → Option ℤ) where
  -- The ids of the entries that are due, tick by tick.
  abbrev pub due_at : List ScheduleEntry → List Tick → List String
  due_at entries [] = []
  due_at entries (t ∷ ticks) = triggered_in atoi t.now t.clock entries ++ due_at entries ticks

module _ (json : Json) (atoi : String → Option ℤ) where
  -- The entries in memory go on as in `check`, whatever the writes answer.
  trigger_each_lem :
      (t : Tick) (snapshot : List ScheduleEntry) (s : Store) (file : Option String)
      (triggered : List String)
      → let (s', _, ids) = trigger_each json atoi t snapshot (s, file, triggered) in
        ((s'.entries, ids) ≡ check_each atoi t.now t.clock snapshot (s.entries, triggered))
        × (s'.file_path ≡ s.file_path)
  unfolding trigger_each trigger_due upsert_stored check_each
  trigger_each_lem t [] s file triggered = (refl, refl)
  trigger_each_lem t (e ∷ snapshot) s file triggered =
      go (e.enabled && is_due atoi e t.clock) (trigger_each_lem t snapshot)
    where
      hit : Store × Option String × List String
      hit =
          let (error, s', file') =
            upsert_stored json (t.write e.id) (record e { last_run = t.now }) s file in
          (s', file', triggered ++ (e.id ∷ []))

      Agrees : Store × Option String × List String → List ScheduleEntry × List String → Type 0
      Agrees out mem =
          let (s', _, ids) = trigger_each json atoi t snapshot out in
          ((s'.entries, ids) ≡ check_each atoi t.now t.clock snapshot mem)
          × (s'.file_path ≡ s.file_path)

      go :
          (b : Bool)
          → ((r : Store) (f : Option String) (ids : List String)
              → let (s', _, ids') = trigger_each json atoi t snapshot (r, f, ids) in
                ((s'.entries, ids') ≡ check_each atoi t.now t.clock snapshot (r.entries, ids))
                × (s'.file_path ≡ r.file_path))
          → Agrees (if b then hit else (s, file, triggered)) (
              if b
              then (upsert (record e { last_run = t.now }) s.entries, triggered ++ (e.id ∷ []))
              else (s.entries, triggered))
      go true next = next hit.0 hit.1 hit.2
      go false next = next s file triggered

  same_trigger :
      (e : ScheduleEntry) (now : Moment) (clock at : Clock)
      → (triggers atoi now at (marked atoi now clock e) ≡ triggers atoi now at e)
        × ((marked atoi now clock e).id ≡ e.id)
  unfolding is_due
  same_trigger e now clock at = go (triggers atoi now clock e)
    where
      go :
          (b : Bool)
          → let m = if b then record e { last_run = now } else e in
            (triggers atoi now at m ≡ triggers atoi now at e) × (m.id ≡ e.id)
      go true = (refl, refl)
      go false = (refl, refl)

  triggered_in-marked :
      (now : Moment) (clock : Clock) (t : Tick) (entries : List ScheduleEntry)
      → triggered_in atoi t.now t.clock (map (marked atoi now clock) entries)
        ≡ triggered_in atoi t.now t.clock entries
  triggered_in-marked now clock t [] = refl
  triggered_in-marked now clock t (e ∷ entries) =
      let (same, id) = same_trigger e now clock t.clock in
      rw (same, id, triggered_in-marked now clock t entries) refl

  due_at-marked :
      (now : Moment) (clock : Clock) (entries : List ScheduleEntry) (ticks : List Tick)
      → due_at atoi (map (marked atoi now clock) entries) ticks ≡ due_at atoi entries ticks
  due_at-marked now clock entries [] = refl
  due_at-marked now clock entries (t ∷ ticks) =
      rw (triggered_in-marked now clock t entries, due_at-marked now clock entries ticks) refl

  All-marked :
      (now : Moment) (clock : Clock) (id : String) (entries : List ScheduleEntry)
      → All (λ r. (r.id == id) ≡ false) entries
      → All (λ r. (r.id == id) ≡ false) (map (marked atoi now clock) entries)
  All-marked now clock id [] h = tt
  All-marked now clock id (e ∷ entries) (h, hs) =
      (rw ((same_trigger e now clock clock).1) h, All-marked now clock id entries hs)

  DistinctIds-marked :
      (now : Moment) (clock : Clock) (entries : List ScheduleEntry)
      → DistinctIds entries
      → DistinctIds (map (marked atoi now clock) entries)
  DistinctIds-marked now clock [] h = tt
  DistinctIds-marked now clock (e ∷ entries) (h, hs) = (
    subst (λ i. All (λ r. (r.id == i) ≡ false) (map (marked atoi now clock) entries))
        (sym (same_trigger e now clock clock).1) (All-marked now clock e.id entries h),
    DistinctIds-marked now clock entries hs,
  )

  tick_lem :
      (t : Tick) (s : Store) (file : Option String) (triggered : List String)
      → DistinctIds s.entries
      → let (s', _, ids) = trigger_each json atoi t s.entries (s, file, triggered) in
        ◌≡◌ {A = List ScheduleEntry × List String}
          (s'.entries, ids)
          (
            map (marked atoi t.now t.clock) s.entries,
            triggered ++ triggered_in atoi t.now t.clock s.entries,
          )
  unfolding check
  tick_lem t s file triggered distinct =
      (trigger_each_lem t s.entries s file triggered).0
      ∙ ap (λ l. check_each atoi t.now t.clock s.entries (s.entries, l))
          (sym (append-nil triggered))
      ∙ check_each-append atoi t.now t.clock s.entries s.entries triggered []
      ∙ ap (λ out. (out.0, triggered ++ out.1)) (check_lem atoi t.now t.clock s.entries distinct)

  -- If no two entries have the same id, a run of the runner triggers at each tick exactly the enabled
  -- entries that are due then, in their order, whatever the writes of the file answer and whatever was
  -- triggered before.
  pub run_ticks_lem :
      (ticks : List Tick) (s : Store) (file : Option String) (triggered : List String)
      → DistinctIds s.entries
      → (run_ticks json atoi ticks (s, file, triggered)).2
        ≡ triggered ++ due_at atoi s.entries ticks
  unfolding run_ticks
  run_ticks_lem [] s file triggered distinct = sym (append-nil triggered)
  run_ticks_lem (t ∷ ticks) s file triggered distinct =
      let (s', file', ids) = trigger_each json atoi t s.entries (s, file, triggered) in
      let ticked = tick_lem t s file triggered distinct in
      let now_in : s'.entries ≡ map (marked atoi t.now t.clock) s.entries =
        ap (λ out. out.0) ticked in
      let distinct' : DistinctIds s'.entries =
        subst DistinctIds (sym now_in) (DistinctIds-marked t.now t.clock s.entries distinct) in
      run_ticks_lem ticks s' file' ids distinct'
      ∙ ap (λ out. out.1 ++ due_at atoi out.0 ticks) ticked
      ∙ ap (λ l. (triggered ++ triggered_in atoi t.now t.clock s.entries) ++ l)
          (due_at-marked t.now t.clock s.entries ticks)
      ∙ append_assoc triggered _ _
