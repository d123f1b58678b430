-- ===== src/Scheduler/Tick.antt =====
-- What a tick of internal/scheduler/schedule.go triggers, and what it leaves.
use bit_rot_detector.Base.{
  String, Bool, true, false, ◌&&◌, Option, List, [], ◌∷◌, ◌++◌, map, ◌≡◌, refl, sym, ap, subst,
  if_ind, ◌∙◌, arith, ◌==◌, ==_refl, ==_iff, string_eq, contains, All, append_assoc, append-nil,
  if◌then◌else◌,
}
use bit_rot_detector.Base.Int.{ℤ}
use bit_rot_detector.Base.Moment.{Moment}
use bit_rot_detector.Scheduler.{ScheduleEntry, Clock, upsert, is_due, check_each, check}

-- No entry has the id of an earlier one.
abbrev pub DistinctIds : List ScheduleEntry → Type 0
DistinctIds [] = Unit
DistinctIds (e ∷ entries) = All (λ r. (r.id == e.id) ≡ false) entries × DistinctIds entries

-- No entry of the first list has the id of one of the second.
abbrev Apart : List ScheduleEntry → List ScheduleEntry → Type 0
Apart before rest = All (λ r. contains (map (λ b. b.id) before) r.id ≡ false) rest

upsert-append :
    (e e' : ScheduleEntry) (before rest : List ScheduleEntry)
    → e'.id ≡ e.id
    → contains (map (λ b. b.id) before) e.id ≡ false
    → upsert e' (before ++ (e ∷ rest)) ≡ before ++ (e' ∷ rest)
unfolding upsert
upsert-append e e' [] rest same h = ground (arith, ==_refl e.id)
upsert-append e e' (b ∷ before) rest same h = ground (arith, upsert-append e e' before rest same)

contains_last :
    (before : List ScheduleEntry) (e : ScheduleEntry) (k : String)
    → contains (map (λ b. b.id) before) k ≡ false
    → (k == e.id) ≡ false
    → contains (map (λ b. b.id) (before ++ (e ∷ []))) k ≡ false
contains_last [] e k h other = ground arith
contains_last (b ∷ before) e k h other = ground (arith, contains_last before e k)

Apart-snoc :
    (e : ScheduleEntry) (before rest : List ScheduleEntry)
    → Apart before rest
    → All (λ r. (r.id == e.id) ≡ false) rest
    → Apart (before ++ (e ∷ [])) rest
Apart-snoc e before [] h k = tt
Apart-snoc e before (r ∷ rest) (h, hs) (k, ks) =
    (contains_last before e r.id h k, Apart-snoc e before rest hs ks)

module _ (atoi : String → Option ℤ) (now : Moment) (clock : Clock) where
  abbrev pub triggers : ScheduleEntry → Bool
  triggers e = e.enabled && is_due atoi e clock

  abbrev pub marked : ScheduleEntry → ScheduleEntry
  marked e = if triggers e then record e { last_run = now } else e

  abbrev pub triggered_in : List ScheduleEntry → List String
  triggered_in [] = []
  triggered_in (e ∷ entries) =
      let rest = triggered_in entries in if triggers e then e.id ∷ rest else rest

  check_each_lem :
      (before rest : List ScheduleEntry) (ids : List String)
      → DistinctIds rest
      → Apart before rest
      → check_each atoi now clock rest (before ++ rest, ids)
        ≡ (before ++ map marked rest, ids ++ triggered_in rest)
  unfolding check_each
  check_each_lem before [] ids h k = rw (append-nil before, append-nil ids) refl
  check_each_lem before (e ∷ rest) ids (h, hs) (k, ks) =
      go (triggers e)
        (λ e' same.
          let apart : Apart (before ++ (e' ∷ [])) rest =
            Apart-snoc e' before rest ks
              (subst (λ i. All (λ r. (r.id == i) ≡ false) rest) (sym same) h) in
          check_each_lem (before ++ (e' ∷ [])) rest (ids ++ (e.id ∷ [])) hs apart)
        (check_each_lem (before ++ (e ∷ [])) rest ids hs (Apart-snoc e before rest ks h))
    where
      tail : List ScheduleEntry
      tail = map marked rest

      go :
          (b : Bool)
          → ((e' : ScheduleEntry)
              → e'.id ≡ e.id
              → check_each atoi now clock rest ((before ++ (e' ∷ [])) ++ rest, ids ++ (e.id ∷ []))
                ≡ ((before ++ (e' ∷ [])) ++ tail, (ids ++ (e.id ∷ [])) ++ triggered_in rest))
          → check_each atoi now clock rest ((before ++ (e ∷ [])) ++ rest, ids)
            ≡ ((before ++ (e ∷ [])) ++ tail, ids ++ triggered_in rest)
          → check_each atoi now clock rest (
              if b
              then (upsert (record e { last_run = now }) (before ++ (e ∷ rest)), ids ++ (e.id ∷ []))
              else (before ++ (e ∷ rest), ids))
            ≡ (
              before ++ ((if b then record e { last_run = now } else e) ∷ tail),
              ids ++ (if b then e.id ∷ triggered_in rest else triggered_in rest),
            )
      go true hit miss =
          ap (λ l. check_each atoi now clock rest (l, ids ++ (e.id ∷ [])))
            (upsert-append e (record e { last_run = now }) before rest refl k
              ∙ sym (append_assoc before (record e { last_run = now } ∷ []) rest))
          ∙ hit (record e { last_run = now }) refl
          ∙ ap (λ l. (l, (ids ++ (e.id ∷ [])) ++ triggered_in rest))
              (append_assoc before (record e { last_run = now } ∷ []) tail)
          ∙ ap (λ l. (before ++ (record e { last_run = now } ∷ tail), l))
              (append_assoc ids (e.id ∷ []) (triggered_in rest))
      go false hit miss =
          ap (λ l. check_each atoi now clock rest (l, ids))
            (sym (append_assoc before (e ∷ []) rest))
          ∙ miss
          ∙ ap (λ l. (l, ids ++ triggered_in rest)) (append_assoc before (e ∷ []) tail)

  none_before : (entries : List ScheduleEntry) → Apart [] entries
  none_before [] = tt
  none_before (e ∷ entries) = (refl, none_before entries)

  -- If no two entries have the same id, a tick triggers exactly the enabled entries that are due, in
  -- their order, gives each of them the time of the tick as its last run, and changes nothing else.
  pub check_lem :
      (entries : List ScheduleEntry)
      → DistinctIds entries
      → check atoi now clock entries ≡ (map marked entries, triggered_in entries)
  unfolding check
  check_lem entries h = check_each_lem [] entries [] h (none_before entries)

-- An insertion keeps the ids distinct.
upsert-absent :
    (e x : ScheduleEntry) (entries : List ScheduleEntry)
    → (e.id == x.id) ≡ false
    → All (λ r. (r.id == x.id) ≡ false) entries
    → All (λ r. (r.id == x.id) ≡ false) (upsert e entries)
unfolding upsert
upsert-absent e x [] other h = (other, tt)
upsert-absent e x (r ∷ entries) other (h, hs) =
    if_ind (All (λ r. (r.id == x.id) ≡ false)) (r.id == e.id) (other, hs)
      (h, upsert-absent e x entries other hs)

-- `Upsert` keeps the ids distinct.
pub upsert-DistinctIds :
    (e : ScheduleEntry) (entries : List ScheduleEntry)
    → DistinctIds entries
    → DistinctIds (upsert e entries)
unfolding upsert
upsert-DistinctIds e [] h = (tt, tt)
upsert-DistinctIds e (r ∷ entries) (h, hs) =
    go (r.id == e.id) refl (upsert-DistinctIds e entries hs)
  where
    go :
        (b : Bool)
        → (r.id == e.id) ≡ b
        → DistinctIds (upsert e entries)
        → DistinctIds (if b then e ∷ entries else r ∷ upsert e entries)
    go true same rest =
        (subst (λ i. All (λ x. (x.id == i) ≡ false) entries) ((==_iff r.id e.id).0 same) h, hs)
    go false other rest = (upsert-absent e r entries (ground arith) h, rest)
