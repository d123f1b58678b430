-- ===== src/Scanner/Sync/Steps.antt =====
-- Every step of `SyncDirectory` but a cancellation keeps the invariant.
use mathlib.Core.Option.{some-injective}
use bit_rot_detector.Base.{
  ℕ, ◌∙◌, sym, subst, String, true, Option, none, some, ◌≡◌, refl, ◌≢◌, ◌⊎◌, inl, inr, arith,
  string_eq, if◌then◌else◌, List, [], ◌∷◌, All, All-append,
}
use bit_rot_detector.Base.Moment.{Moment}
use bit_rot_detector.Base.Dict.{Dict, lookup, NodupKeys, insert, lookup-insert}
use bit_rot_detector.Domain.{Result, ok, FileRecord, WorkItem, Repository}
use bit_rot_detector.Domain.Lawful.{IsLawful, IsReliable}
use bit_rot_detector.Scanner.Walk.{Stamp, WalkEvent, failed, found}
use bit_rot_detector.Scanner.Classify.{work_item, compute, pick}
use bit_rot_detector.Scanner.Sync.{
  State, canceled, Choice, walks, stops, collects, drops, cancels, visit, take_result, drop_item,
  collect, step, walk_on,
}
use bit_rot_detector.Scanner.Sync.Pending.{Waiting-append, Waiting-pick, All-pick}
use bit_rot_detector.Scanner.Sync.Effect.{
  Written, Frame, collect-Frame, collect-Written, collect-row,
}
use bit_rot_detector.Scanner.Sync.Invariant.{Distinct, Settled, Inv}

module _ {Float : Type 0} {R : Repository Float} (L : IsLawful R) {Good : R.State → Type 0}
    (rel : IsReliable R Good) (hash_of : String → Result String)
    (added_now seen_now : String → Moment) (db_files : Dict FileRecord) (uniq : NodupKeys db_files)
    (events : List WalkEvent) where
  abbrev Holds : State R → Type 0
  Holds = Inv L Good hash_of added_now seen_now db_files events

  abbrev IsSent : Dict Stamp → WorkItem → Type 0
  IsSent seen w =
      (stamp : Stamp) × (lookup w.path seen ≡ some stamp) × (w ≡ work_item db_files w.path stamp)

  visit-Inv :
      (path : String) (stamp : Stamp) (rest : List WalkEvent) (s : State R)
      → s.todo ≡ found path stamp ∷ rest
      → Holds s
      → Holds (
          visit R hash_of added_now seen_now db_files (found path stamp) (record s { todo = rest }))
  unfolding visit work_item
  visit-Inv path stamp rest s e inv = record {
    good = inv.good;
    uncancelled = inv.uncancelled;
    alive = inv.alive;
    walking = inv.walking;
    ahead = rw e at inv.ahead;
    distinct = here.1;
    sent =
        All-append _ s.pending (work_item db_files path stamp ∷ []) (sent-insert s.pending inv.sent)
          ((stamp, ground (arith, lookup-insert path path stamp s.seen), refl), tt);
    settled = λ p stamp' h. elim (string_eq.dec p path) [
      | yes same ↦ inl (Waiting-append p s.pending _ (inr (sym same)))
      | no other ↦ elim (inv.settled p stamp' (ground (arith, lookup-insert p path stamp s.seen))) [
        | inl waits ↦ inl (Waiting-append p s.pending _ (inl waits))
        | inr done ↦ inr done
      ]
    ];
    unseen = λ p h. inv.unseen p (ground (arith, lookup-insert p path stamp s.seen));
  }
    where
      here : (lookup path s.seen ≡ none) × Distinct rest (insert path stamp s.seen)
      here = subst (λ todo. Distinct todo s.seen) e inv.distinct

      sent-insert :
          (items : List WorkItem)
          → All (IsSent s.seen) items
          → All (IsSent (insert path stamp s.seen)) items
      sent-insert [] h = tt
      sent-insert (w ∷ items) ((st, known, form), hs) = (
        (st, ground (arith, known, here.0, lookup-insert w.path path stamp s.seen), form),
        sent-insert items hs,
      )

  walk_on-Inv :
      (todo : List WalkEvent) (s : State R)
      → s.todo ≡ todo
      → Holds s
      → Holds (walk_on R hash_of added_now seen_now db_files todo s)
  unfolding walk_on visit
  walk_on-Inv [] s e inv = inv
  walk_on-Inv (failed message ∷ rest) s e inv = record {
    good = inv.good;
    uncancelled = inv.uncancelled;
    alive = inv.alive;
    walking = inv.walking;
    ahead = rw e at inv.ahead;
    distinct = subst (λ todo. Distinct todo s.seen) e inv.distinct;
    sent = inv.sent;
    settled = inv.settled;
    unseen = inv.unseen;
  }
  walk_on-Inv (found path stamp ∷ rest) s e inv = visit-Inv path stamp rest s e inv

  collect-Settled :
      (w : WorkItem) (stamp : Stamp) (s : State R)
      → Good s.repo
      → w ≡ work_item db_files w.path stamp
      → Settled L Good hash_of added_now seen_now db_files w.path stamp
          (L.row (collect R hash_of added_now seen_now db_files (compute hash_of w) s).repo w.path)
  unfolding compute work_item
  collect-Settled w stamp s good form hash e =
      subst
        (λ v.
          Written db_files added_now seen_now (compute hash_of v) hash (
            L.row (collect R hash_of added_now seen_now db_files (compute hash_of w) s).repo
              w.path))
        form
        (collect-Written L rel hash_of added_now seen_now db_files (compute hash_of w) hash s good
          (subst (λ v. (compute hash_of v).hash ≡ ok hash) (sym form) e) uniq)

  collect-Inv :
      (n : ℕ) (w : WorkItem) (rest : List WorkItem) (s : State R)
      → pick n s.pending ≡ some (w, rest)
      → Holds s
      → Holds (
          collect R hash_of added_now seen_now db_files
            (compute hash_of w)
            (record s { pending = rest }))
  unfolding compute
  collect-Inv n w rest s e inv = record {
    good = f.good;
    uncancelled = f.cancelled ∙ inv.uncancelled;
    alive = f.aborted ∙ inv.alive;
    walking = f.walk_err ∙ inv.walking;
    ahead = rw (f.todo, f.seen) inv.ahead;
    distinct = rw (f.todo, f.seen) inv.distinct;
    sent = rw (f.pending, f.seen) taken.1;
    settled = λ p stamp h.
        let h' : lookup p s.seen ≡ some stamp = rw f.seen at h in
        elim (string_eq.dec p w.path) [
          | yes same ↦ inr (own p stamp same h')
          | no other ↦ elim (inv.settled p stamp h') [
            | inl waits ↦
                inl (rw f.pending (Waiting-pick p n s.pending w rest e (λ q. other (sym q)) waits))
            | inr done ↦ elim (away p other) [
              | inl kept ↦ inr (
                  subst (λ o. Settled L Good hash_of added_now seen_now db_files p stamp o)
                    (sym kept) done)
              | inr (gone, unseen) ↦ absurd (cc)
            ]
          ]
        ];
    unseen = λ p h.
        let h' : lookup p s.seen ≡ none = rw f.seen at h in
        elim (away p (λ same. ground (arith, same, (taken.0).1))) [
          | inl same ↦ elim (inv.unseen p h') [
            | inl old ↦ inl (same ∙ old)
            | inr gone ↦ inr (same ∙ gone)
          ]
          | inr (gone, _) ↦ inr gone
        ];
  }
    where
      s0 : State R
      s0 = record s { pending = rest }

      f : Frame L rel s0 (collect R hash_of added_now seen_now db_files (compute hash_of w) s0)
      f = collect-Frame L rel hash_of added_now seen_now db_files (compute hash_of w) s0 inv.good

      taken : IsSent s.seen w × All (IsSent s.seen) rest
      taken = All-pick (IsSent s.seen) n s.pending w rest e inv.sent

      away :
          (p : String)
          → p ≢ w.path
          → let o =
              L.row (collect R hash_of added_now seen_now db_files (compute hash_of w) s0).repo p in
            (o ≡ L.row s.repo p) ⊎ ((o ≡ none) × (lookup p s.seen ≡ none))
      away p other =
          collect-row L rel hash_of added_now seen_now db_files (compute hash_of w) s0 p inv.good
            other

      own :
          (p : String) (stamp : Stamp)
          → p ≡ w.path
          → lookup p s.seen ≡ some stamp
          → Settled L Good hash_of added_now seen_now db_files p stamp
              (L.row (collect R hash_of added_now seen_now db_files (compute hash_of w) s0).repo p)
      own p stamp same h =
          let (st, known, form) = taken.0 in
          let st_eq : st ≡ stamp =
            some-injective st stamp
              (sym known ∙ subst (λ q. lookup q s.seen ≡ some stamp) same h) in
          subst
            (λ q.
              Settled L Good hash_of added_now seen_now db_files q stamp (
                L.row (collect R hash_of added_now seen_now db_files (compute hash_of w) s0).repo
                  q))
            (sym same)
            (collect-Settled w stamp s0 inv.good
              (subst (λ t. w ≡ work_item db_files w.path t) st_eq form))

  take_result-Inv :
      (n : ℕ) (o : Option (WorkItem × List WorkItem)) (s : State R)
      → pick n s.pending ≡ o
      → Holds s
      → Holds (take_result R hash_of added_now seen_now db_files o s)
  unfolding take_result
  take_result-Inv n none s e inv = inv
  take_result-Inv n (some (w, rest)) s e inv =
      let t : State R =
        collect R hash_of added_now seen_now db_files (compute hash_of w)
          (record s { pending = rest }) in
      subst (λ b. Holds (if b then record s { pending = rest; aborted = true } else t))
        (sym inv.uncancelled) (collect-Inv n w rest s e inv)

  drop_item-Inv :
      (o : Option (WorkItem × List WorkItem)) (s : State R)
      → Holds s
      → Holds (drop_item R hash_of added_now seen_now db_files o s)
  unfolding drop_item
  drop_item-Inv none s inv = inv
  drop_item-Inv (some (w, rest)) s inv =
      subst (λ b. Holds (if b then record s { pending = rest } else s)) (sym inv.uncancelled) inv

  pub step-Inv :
      (c : Choice) (s : State R)
      → c ≢ cancels
      → Holds s
      → Holds (step R hash_of added_now seen_now db_files c s)
  unfolding step
  step-Inv walks s live inv = walk_on-Inv s.todo s refl inv
  step-Inv stops s live inv =
      subst (λ b. Holds (if b then record s { todo = []; walk_err = some canceled } else s))
        (sym inv.uncancelled) inv
  step-Inv (collects n) s live inv =
      let t : State R = take_result R hash_of added_now seen_now db_files (pick n s.pending) s in
      subst (λ b. Holds (if b then s else t)) (sym inv.alive)
        (take_result-Inv n (pick n s.pending) s refl inv)
  step-Inv (drops n) s live inv = drop_item-Inv (pick n s.pending) s inv
  step-Inv cancels s live inv = absurd (live refl)
