-- ===== src/Api/Exclusive.antt =====
-- At most one operation of internal/api/server.go is in progress.
use bit_rot_detector.Base.{
  ℕ, zero, suc, String, true, false, Option, none, some, List, [], ◌∷◌, ◌≡◌, ◌⊎◌, inl, inr, refl,
}
use bit_rot_detector.Base.Moment.{Moment}
use bit_rot_detector.Coordinator.{DriveResult, Options}
use bit_rot_detector.Api.{
  Server, Operation, Response, Event, sync, scrub, drive_sync, drive_scrub, ends, new,
  take_operation, start_operation_for_paths, handle_sync, handle_scrub, handle_drive_sync,
  handle_drive_scrub, parse_drive_idx, store_results, drive_statuses, handle, serve,
}

module _ {Float : Type 0} where
  -- The status says that an operation is running, and there is one; or it says that none is, and there
  -- is none.
  abbrev pub IsExclusive : Server Float → Type 0
  IsExclusive s =
      (((s.status).running ≡ false) × (s.working ≡ []))
      ⊎ ((op : Operation Float) × ((s.status).running ≡ true) × (s.working ≡ op ∷ []))

  start-IsExclusive :
      (targets : List String) (opts : Options Float) (s : Server Float)
      → IsExclusive s
      → IsExclusive (start_operation_for_paths targets opts s).1
  unfolding start_operation_for_paths
  start-IsExclusive targets opts s (inl (idle, alone)) =
      rw (idle, alone) (inr (record { targets = targets; opts = opts }, refl, refl))
  start-IsExclusive targets opts s (inr (op, busy, one)) = rw busy (inr (op, refl, one))

  store_results-IsExclusive :
      (show : ℕ → String) (n : ℕ) (results : List DriveResult) (duration : ℕ) (now : Moment)
      (s : Server Float)
      → IsExclusive s
      → IsExclusive (store_results show n results duration now s)
  unfolding store_results take_operation
  store_results-IsExclusive show n results duration now s (inl (idle, alone)) =
      rw alone (inl (idle, refl))
  store_results-IsExclusive show zero results duration now s (inr (op, busy, one)) =
      rw one (inl (refl, refl))
  store_results-IsExclusive show (suc n) results duration now s (inr (op, busy, one)) =
      rw one (inr (op, busy, refl))

  drive-IsExclusive :
      (idx : Option String) (opts : Options Float) (s : Server Float)
      → IsExclusive s
      → IsExclusive
          (elim idx as (λ _. Response × Server Float) [
            | none ↦ ((400, "invalid drive index"), s)
            | some p ↦ start_operation_for_paths (p ∷ []) opts s
          ]).1
  drive-IsExclusive none opts s h = h
  drive-IsExclusive (some p) opts s h = start-IsExclusive (p ∷ []) opts s h

  handle-IsExclusive :
      (show : ℕ → String) (e : Event) (s : Server Float)
      → IsExclusive s
      → IsExclusive (handle show e s)
  unfolding handle handle_sync handle_scrub handle_drive_sync handle_drive_scrub
  handle-IsExclusive show sync s h = start-IsExclusive s.paths _ s h
  handle-IsExclusive show scrub s h = start-IsExclusive s.paths _ s h
  handle-IsExclusive show (drive_sync idx) s h =
      drive-IsExclusive (parse_drive_idx idx s.paths) _ s h
  handle-IsExclusive show (drive_scrub idx) s h =
      drive-IsExclusive (parse_drive_idx idx s.paths) _ s h
  handle-IsExclusive show (ends n results duration now) s h =
      store_results-IsExclusive show n results duration now s h

  from :
      (show : ℕ → String) (events : List Event) (s : Server Float)
      → IsExclusive s
      → IsExclusive (serve show events s)
  unfolding serve
  from show [] s h = h
  from show (e ∷ events) s h = from show events (handle show e s) (handle-IsExclusive show e s h)

  -- In every order of requests and ends of operations, at most one operation is in the background, and
  -- the status says whether there is one.
  pub serve-IsExclusive :
      (show : ℕ → String) (events : List Event) (paths : List String) (opts : Options Float)
      → IsExclusive (serve show events (new paths opts))
  unfolding new
  serve-IsExclusive show events paths opts = from show events (new paths opts) (inl (refl, refl))

  start_lem :
      (s : Server Float) (targets : List String) (opts : Options Float)
      → IsExclusive s
      → let (answer, t) = start_operation_for_paths targets opts s in
        ((s.working ≡ [])
          × (answer ≡ (202, "accepted"))
          × (t.working ≡ record { targets = targets; opts = opts } ∷ []))
        ⊎ ((op : Operation Float) × (s.working ≡ op ∷ [])
            × (answer ≡ (409, "an operation is already in progress"))
            × (t ≡ s))
  unfolding start_operation_for_paths
  start_lem s targets opts (inl (idle, alone)) = inl (alone, rw idle refl, rw (idle, alone) refl)
  start_lem s targets opts (inr (op, busy, one)) = inr (op, one, rw busy refl, rw busy refl)

  -- After any requests and ends of operations, a start is accepted exactly if no operation is in the
  -- background. It then is the only one there, with the targets and the options of the request; a start
  -- that is not accepted is answered by 409 and changes nothing.
  pub start_operation_for_paths_lem :
      (show : ℕ → String) (events : List Event) (paths : List String) (opts own : Options Float)
      (targets : List String)
      → let s = serve show events (new paths own) in
        let (answer, t) = start_operation_for_paths targets opts s in
        ((s.working ≡ [])
          × (answer ≡ (202, "accepted"))
          × (t.working ≡ record { targets = targets; opts = opts } ∷ []))
        ⊎ ((op : Operation Float) × (s.working ≡ op ∷ [])
            × (answer ≡ (409, "an operation is already in progress"))
            × (t ≡ s))
  start_operation_for_paths_lem show events paths opts own targets =
      start_lem (serve show events (new paths own)) targets opts
        (serve-IsExclusive show events paths own)

  -- If the only operation ends with its results, the status shows the result of each of its drives, and
  -- the next start is accepted.
  pub store_results_lem :
      (show : ℕ → String) (results : List DriveResult) (duration : ℕ) (now : Moment)
      (s : Server Float) (op : Operation Float) (targets : List String) (opts : Options Float)
      → s.working ≡ op ∷ []
      → let t = store_results show 0 results duration now s in
        ((t.status).drives ≡ drive_statuses op.targets results)
        × ((t.status).last_run ≡ some now)
        × ((start_operation_for_paths targets opts t).0 ≡ (202, "accepted"))
  unfolding store_results take_operation start_operation_for_paths
  store_results_lem show results duration now s op targets opts one = rw one (refl, refl, refl)
