-- ===== src/Scanner/Sync/Pending.antt =====
-- The items between the walker and the collector of internal/scanner/scanner.go.
use bit_rot_detector.Base.{
  ℕ, zero, suc, ◌≡◌, ◌≢◌, ◌⊎◌, inl, inr, String, Option, none, some, List, [], ◌∷◌, ◌++◌, All,
  subst, arith,
}
use bit_rot_detector.Domain.{WorkItem}
use bit_rot_detector.Scanner.Classify.{pick}

-- An item of the path is on its way.
abbrev pub Waiting : String → List WorkItem → Type 0
Waiting p [] = ⊥
Waiting p (w ∷ items) = (w.path ≡ p) ⊎ Waiting p items

pub Waiting-append :
    (p : String) (items : List WorkItem) (w : WorkItem)
    → Waiting p items ⊎ (w.path ≡ p)
    → Waiting p (items ++ (w ∷ []))
Waiting-append p [] w (inl h) = elim h [ ]
Waiting-append p [] w (inr h) = inl h
Waiting-append p (v ∷ items) w (inl (inl h)) = inl h
Waiting-append p (v ∷ items) w (inl (inr h)) = inr (Waiting-append p items w (inl h))
Waiting-append p (v ∷ items) w (inr h) = inr (Waiting-append p items w (inr h))

-- An item that was picked stood between the others.
pick-suc :
    (n : ℕ) (v : WorkItem) (items : List WorkItem) (w : WorkItem) (rest : List WorkItem)
    → pick (suc n) (v ∷ items) ≡ some (w, rest)
    → (others : List WorkItem) × (pick n items ≡ some (w, others)) × (rest ≡ v ∷ others)
unfolding pick
pick-suc n v items w rest e = go (pick n items) e
  where
    go :
        (o : Option (WorkItem × List WorkItem))
        → elim o as (λ _. Option (WorkItem × List WorkItem)) [
          | none ↦ none
          | some (u, others) ↦ some (u, v ∷ others)
        ]
          ≡ some (w, rest)
        → (others : List WorkItem) × (o ≡ some (w, others)) × (rest ≡ v ∷ others)
    go none h = absurd (cc)
    go (some (u, others)) h = (others, ground arith, ground arith)

pub Waiting-pick :
    (p : String) (n : ℕ) (items : List WorkItem) (w : WorkItem) (rest : List WorkItem)
    → pick n items ≡ some (w, rest)
    → w.path ≢ p
    → Waiting p items
    → Waiting p rest
unfolding pick
Waiting-pick p n [] w rest e other h = elim h [ ]
Waiting-pick p zero (v ∷ items) w rest e other h = elim h [
  | inl here ↦ absurd (other (ground arith))
  | inr there ↦ subst (Waiting p) (ground arith) there
]
Waiting-pick p (suc n) (v ∷ items) w rest e other h =
    let (others, picked, form) = pick-suc n v items w rest e in
    rw form (elim h [
      | inl here ↦ inl here
      | inr there ↦ inr (Waiting-pick p n items w others picked other there)
    ])

pub All-pick :
    (P : WorkItem → Type 0) (n : ℕ) (items : List WorkItem) (w : WorkItem) (rest : List WorkItem)
    → pick n items ≡ some (w, rest)
    → All P items
    → P w × All P rest
unfolding pick
All-pick P n [] w rest e h = absurd (cc)
All-pick P zero (v ∷ items) w rest e (h, hs) =
    (subst P (ground arith) h, subst (All P) (ground arith) hs)
All-pick P (suc n) (v ∷ items) w rest e (h, hs) =
    let (others, picked, form) = pick-suc n v items w rest e in
    let (here, there) = All-pick P n items w others picked hs in (here, rw form (h, there))
