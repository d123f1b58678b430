-- ===== src/Retry/Invariant.antt =====
-- What holds of every queue that the methods of internal/retry/retry.go can build.
use bit_rot_detector.Base.{
  ℕ, suc, ◌+◌, ◌≤◌, ◌≡◌, refl, ◌∙◌, String, List, [], ◌∷◌, ◌++◌, map, arith, leb, length,
  length-append, string_eq, Bool-cases, inl, inr,
}
use bit_rot_detector.Retry.{
  Item, Queue, new, enqueue, update_first, finish, mark_done, reschedule, mark_failed, Call, adds,
  succeeds, fails, step, run,
}

abbrev pub paths : Queue → List String
paths q = map (λ it. it.path) q.items

module _ (itoa : ℕ → String) where
  -- The items carry the numbers from `n` on, in the order of their insertion.
  abbrev pub Numbered : ℕ → List Item → Type 0
  Numbered n [] = Unit
  Numbered n (it ∷ items) = (it.id ≡ itoa n) × Numbered (suc n) items

  pub record IsValid (q : Queue) : Type 0 where
    pub bounded : length q.items ≤ q.max
    pub counted : q.counter ≡ length q.items
    pub numbered : Numbered 1 q.items

  Numbered-snoc :
      (n m : ℕ) (items : List Item) (it : Item)
      → Numbered n items
      → n + length items ≡ m
      → it.id ≡ itoa m
      → Numbered n (items ++ (it ∷ []))
  Numbered-snoc n m [] it h e f = ground arith
  Numbered-snoc n m (x ∷ items) it (h, hs) e f =
      (h, Numbered-snoc (suc n) m items it hs (omega arith) f)

  Numbered-update_first :
      (f : Item → Item) (keeps : (it : Item) → (f it).id ≡ it.id) (n : ℕ) (id : String)
      (items : List Item)
      → Numbered n items
      → Numbered n (update_first f id items)
  unfolding update_first
  Numbered-update_first f keeps n id [] h = tt
  Numbered-update_first f keeps n id (it ∷ items) (h, hs) =
      ground (arith, keeps it, Numbered-update_first f keeps (suc n) id items hs)

  length-update_first :
      (f : Item → Item) (id : String) (items : List Item)
      → length (update_first f id items) ≡ length items
  unfolding update_first
  length-update_first f id [] = refl
  length-update_first f id (it ∷ items) = ground (arith, length-update_first f id items)

  step-IsValid : (c : Call) (q : Queue) → IsValid q → IsValid (step itoa c q)
  unfolding step enqueue mark_done mark_failed
  step-IsValid (adds path op err_msg now) q v = elim (Bool-cases (leb q.max (length q.items))) [
    | inl full ↦ rw full v
    | inr room ↦ rw room (record {
      bounded = grind (arith, length-append);
      counted = grind (arith, length-append);
      numbered =
          Numbered-snoc 1 (q.counter + 1) q.items _ v.numbered (omega (arith, v.counted)) refl;
    })
  ]
  step-IsValid (succeeds id) q v = record {
    bounded = omega (arith, v.bounded, length-update_first finish id q.items);
    counted = omega (arith, v.counted, length-update_first finish id q.items);
    numbered = Numbered-update_first finish (λ it. refl) 1 id q.items v.numbered;
  }
  step-IsValid (fails id err_msg now) q v = record {
    bounded = omega (arith, v.bounded, length-update_first (reschedule err_msg now) id q.items);
    counted = omega (arith, v.counted, length-update_first (reschedule err_msg now) id q.items);
    numbered = Numbered-update_first _ (λ it. refl) 1 id q.items v.numbered;
  }

  run-IsValid_from : (calls : List Call) (q : Queue) → IsValid q → IsValid (run itoa calls q)
  unfolding run
  run-IsValid_from [] q v = v
  run-IsValid_from (c ∷ calls) q v = run-IsValid_from calls (step itoa c q) (step-IsValid c q v)

  -- A queue made by `New` with any capacity, after any calls of `Add`, `MarkDone` and `MarkFailed`,
  -- holds at most as many items as its capacity, its counter is the number of its items, and the
  -- items carry the identifiers "1", "2" and so on in the order in which they were added.
  pub run-IsValid : (max : ℕ) (calls : List Call) → IsValid (run itoa calls (new max))
  run-IsValid max calls =
      run-IsValid_from calls (new max)
        (record { bounded = omega arith; counted = refl; numbered = tt })

  map-update_first :
      (f : Item → Item) (keeps : (it : Item) → (f it).path ≡ it.path) (id : String)
      (items : List Item)
      → map (λ it. it.path) (update_first f id items) ≡ map (λ it. it.path) items
  unfolding update_first
  map-update_first f keeps id [] = refl
  map-update_first f keeps id (it ∷ items) =
      ground (arith, keeps it, map-update_first f keeps id items)

  step-full :
      (c : Call) (q : Queue)
      → q.max ≤ length q.items
      → (paths (step itoa c q) ≡ paths q)
        × (length (step itoa c q).items ≡ length q.items)
        × ((step itoa c q).max ≡ q.max)
  unfolding step enqueue mark_done mark_failed
  step-full (adds path op err_msg now) q full = (ground arith, ground arith, ground arith)
  step-full (succeeds id) q full =
      (map-update_first finish (λ it. refl) id q.items, length-update_first finish id q.items, refl)
  step-full (fails id err_msg now) q full =
      (map-update_first _ (λ it. refl) id q.items, length-update_first _ id q.items, refl)

  -- A full queue stays as it is for good: no later calls, `MarkDone` included, make room for another
  -- path, since finished items are never taken out.
  pub paths-run_full :
      (calls : List Call) (q : Queue) → q.max ≤ length q.items → paths (run itoa calls q) ≡ paths q
  unfolding run
  paths-run_full [] q full = refl
  paths-run_full (c ∷ calls) q full =
      let (same, long, cap) = step-full c q full in
      paths-run_full calls (step itoa c q) (omega arith) ∙ same
