-- ===== src/Scheduler/Entries.antt =====
-- The entries of internal/scheduler/schedule.go by their ids.
use bit_rot_detector.Base.{
  arith, String, Bool, true, false, Option, none, some, List, [], ◌∷◌, ◌==◌, ◌≡◌, refl, sym, ap,
  ◌∙◌, subst, string_eq, ==_iff, if◌then◌else◌,
}
use bit_rot_detector.Scheduler.{ScheduleEntry, upsert}

-- The first entry with an id.
unfoldable pub entry_with : String → List ScheduleEntry → Option ScheduleEntry
entry_with id [] = none
entry_with id (e ∷ entries) =
    let rest = entry_with id entries in if e.id == id then some e else rest

-- `Upsert` changes what is found under the entry's own id, and nothing else.
pub entry_with-upsert :
    (e : ScheduleEntry) (id : String) (entries : List ScheduleEntry)
    → entry_with id (upsert e entries) ≡ (if e.id == id then some e else entry_with id entries)
unfolding entry_with upsert
entry_with-upsert e id [] = refl
entry_with-upsert e id (x ∷ entries) =
    go (x.id == e.id) refl (x.id == id) refl (entry_with-upsert e id entries)
  where
    go :
        (c : Bool)
        → (x.id == e.id) ≡ c
        → (d : Bool) → (x.id == id) ≡ d
        → entry_with id (upsert e entries) ≡ (if e.id == id then some e else entry_with id entries)
        → entry_with id (if c then e ∷ entries else x ∷ upsert e entries)
          ≡ (if e.id == id then some e else if d then some x else entry_with id entries)
    go true same true here ih =
        let found : (e.id == id) ≡ true =
          subst (λ i. (i == id) ≡ true) ((==_iff x.id e.id).0 same) here in
        ap (λ b. if b then some e else entry_with id entries) found
        ∙ sym (ap (λ b. if b then some e else some x) found)
    go true same false here ih = refl
    go false other true here ih =
        let apart : (e.id == id) ≡ false =
          let other' : (id == e.id) ≡ false =
            subst (λ i. (i == e.id) ≡ false) ((==_iff x.id id).0 here) other in
          ground (arith, other') in
        ap (λ b. if b then some x else entry_with id (upsert e entries)) here
        ∙ sym (ap (λ b. if b then some e else some x) apart)
    go false other false here ih =
        ap (λ b. if b then some x else entry_with id (upsert e entries)) here ∙ ih
