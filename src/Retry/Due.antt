-- ===== src/Retry/Due.antt =====
-- Which items `Due` of internal/retry/retry.go returns after `MarkDone` and `MarkFailed`.
use mathlib.Core.Option.{some-injective}
use bit_rot_detector.Base.{
  ℕ, suc, ◌+◌, ◌<◌, ◌≡◌, refl, ◌≢◌, ◌∙◌, sym, String, false, not, ◌&&◌, List, [], ◌∷◌, arith, All,
  ◌==◌, ==_iff, string_eq, if◌then◌else◌, Bool-cases, inl, inr, Option, none, some,
}
use bit_rot_detector.Base.Moment.{add_signed, Moment, before}
use bit_rot_detector.Retry.{
  Item, Queue, due, due_items, update_first, finish, mark_done, backoff, reschedule, mark_failed,
}
use bit_rot_detector.Retry.Invariant.{IsValid, Numbered}

-- The item that a call with the identifier finds.
abbrev pub find : String → List Item → Option Item
find id [] = none
find id (it ∷ items) = if it.id == id then some it else find id items

module _ (id : String) where
  abbrev pub Absent : List Item → Type 0
  Absent = All (λ it. it.id ≢ id)

  due_items-Absent :
      (now : Moment) (items : List Item) → Absent items → Absent (due_items now items)
  unfolding due_items
  due_items-Absent now [] h = tt
  due_items-Absent now (it ∷ items) (h, hs) = ground (arith, due_items-Absent now items hs)

module _ (itoa : ℕ → String) (injective : (m n : ℕ) → itoa m ≡ itoa n → m ≡ n) where
  Numbered-Absent :
      (id : String) (k n : ℕ) (items : List Item)
      → id ≡ itoa k
      → k < n
      → Numbered itoa n items
      → Absent id items
  Numbered-Absent id k n [] i lt h = tt
  Numbered-Absent id k n (it ∷ items) i lt (h, hs) = (
    λ e. absurd (omega (arith, injective k n (sym i ∙ sym e ∙ h))),
    Numbered-Absent id k (suc n) items i (omega arith) hs,
  )

  due_items-update :
      (f : Item → Item) (id : String) (now : Moment) (n : ℕ) (items : List Item)
      → Numbered itoa n items
      → ((it : Item)
          → find id items ≡ some it
          → (not (f it).done && before (f it).next_at now) ≡ false)
      → Absent id (due_items now (update_first f id items))
  unfolding due_items update_first
  due_items-update f id now n [] v idle = tt
  due_items-update f id now n (it ∷ items) (e, v) idle = elim (Bool-cases (it.id == id)) [
    | inl same ↦
        let named : id ≡ itoa n = sym ((==_iff it.id id).0 same) ∙ e in
        rw (same, idle it (rw same))
          (due_items-Absent id now items (Numbered-Absent id n (suc n) items named (omega arith) v))
    | inr other ↦ rw other (
        ground (
          arith,
          due_items-update f id now (suc n) items v (λ it' h. idle it' (rw other h)),
          ==_iff it.id id,
        ))
  ]

  -- After `MarkDone` no item with the identifier is due, at any time: identifiers are not shared, so
  -- that the first match of the loop is the only one.
  pub due-mark_done :
      (id : String) (now : Moment) (q : Queue)
      → IsValid itoa q
      → Absent id (due now (mark_done id q))
  unfolding due mark_done
  due-mark_done id now q v = due_items-update finish id now 1 q.items v.numbered (λ it h. refl)

  -- After `MarkFailed` at the time `now` the item is not due again until more than the delay for
  -- its new number of attempts has passed.
  pub due-mark_failed :
      (id err_msg : String) (now later : Moment) (q : Queue) (it : Item)
      → IsValid itoa q
      → find id q.items ≡ some it
      → before (add_signed now (backoff (it.attempts + 1))) later ≡ false
      → Absent id (due later (mark_failed id err_msg now q))
  unfolding due mark_failed
  due-mark_failed id err_msg now later q it v found early =
      due_items-update (reschedule err_msg now) id later 1 q.items v.numbered
        λ it' h. ground (arith, some-injective it it' (sym found ∙ h))
