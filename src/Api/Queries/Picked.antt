-- ===== src/Api/Queries/Picked.antt =====
-- The loops of `handleCompare` in internal/api/server.go: what they find, and that they miss nothing.
use bit_rot_detector.Base.{
  String, Bool, true, false, ◌&&◌, ◌||◌, Option, none, some, List, [], ◌∷◌, ◌==◌, ◌≡◌, refl, arith,
  string_eq, is_none, contains, ==_refl, ==_iff, All, if◌then◌else◌, if_ind,
}
use bit_rot_detector.Base.Int.{ℤ, pos, int_eq}
use bit_rot_detector.Domain.{Result, ok, err, RunRecord}
use bit_rot_detector.Api.Queries.{Pair, keep, pick, pick_paths}

abbrev pub Absent : ℤ → Result (List RunRecord) → Type 0
Absent id (err e) = Unit
Absent id (ok runs) = All (λ r. (pos r.id == id) ≡ false) runs

-- No answer of the queries has a run with the number.
abbrev pub Missing : ℤ → (String → Result (List RunRecord)) → List String → Type 0
Missing id query [] = Unit
Missing id query (p ∷ paths) = Absent id (query p) × Missing id query paths

keep-none :
    (id : ℤ) (r : RunRecord) (old : Option RunRecord)
    → keep id r old ≡ none
    → (old ≡ none) × ((pos r.id == id) ≡ false)
unfolding keep
keep-none id r old h = ground (arith, h)

-- If a run was not found, there is none.
pick-none :
    (a b : ℤ) (runs : List RunRecord) (x y : Option RunRecord)
    → ((pick a b runs (x, y)).0 ≡ none → (x ≡ none) × All (λ r. (pos r.id == a) ≡ false) runs)
      × ((pick a b runs (x, y)).1 ≡ none → (y ≡ none) × All (λ r. (pos r.id == b) ≡ false) runs)
unfolding pick
pick-none a b [] x y = (λ h. (h, tt), λ h. (h, tt))
pick-none a b (r ∷ runs) x y =
    let (left, right) = pick-none a b runs (keep a r x) (keep b r y) in
    (
      λ h.
          let (kept, rest) = left h in
          let (old, here) = keep-none a r x kept in (old, (here, rest)),
      λ h.
          let (kept, rest) = right h in
          let (old, here) = keep-none b r y kept in (old, (here, rest)),
    )

pub pick_paths-none :
    (a b : ℤ) (query : String → Result (List RunRecord)) (paths : List String)
    (x y : Option RunRecord)
    → ((pick_paths a b query paths (x, y)).0 ≡ none → (x ≡ none) × Missing a query paths)
      × ((pick_paths a b query paths (x, y)).1 ≡ none → (y ≡ none) × Missing b query paths)
unfolding pick_paths
pick_paths-none a b query [] x y = (λ h. (h, tt), λ h. (h, tt))
pick_paths-none a b query (p ∷ paths) x y = here (pick_paths-none a b query paths) (query p)
  where
    next : Result (List RunRecord) → Pair
    next (err e) = (x, y)
    next (ok runs) = pick a b runs (x, y)

    stopped :
        ((x y : Option RunRecord)
          → ((pick_paths a b query paths (x, y)).0 ≡ none → (x ≡ none) × Missing a query paths)
            × ((pick_paths a b query paths (x, y)).1 ≡ none → (y ≡ none) × Missing b query paths))
        → (z : Pair) (P Q : Type 0) → (z.0 ≡ none → P)
        → (z.1 ≡ none → Q)
        → (let rest = pick_paths a b query paths z in
            let out = if is_none z.0 || is_none z.1 then rest else z in
            (out.0 ≡ none → P × Missing a query paths) × (out.1 ≡ none → Q × Missing b query paths))
    stopped ih (none, v) P Q f g =
        let (left, right) = ih none v in
        (λ h. (f refl, (left h).1), λ h. (g (right h).0, (right h).1))
    stopped ih (some u, none) P Q f g =
        let (left, right) = ih (some u) none in
        (λ h. (f (left h).0, (left h).1), λ h. (g refl, (right h).1))
    stopped ih (some u, some v) P Q f g = (λ h. absurd (cc), λ h. absurd (cc))

    here :
        ((x y : Option RunRecord)
          → ((pick_paths a b query paths (x, y)).0 ≡ none → (x ≡ none) × Missing a query paths)
            × ((pick_paths a b query paths (x, y)).1 ≡ none → (y ≡ none) × Missing b query paths))
        → (o : Result (List RunRecord))
        → let z = elim o as (λ _. Pair) [ err e ↦ (x, y) | ok runs ↦ pick a b runs (x, y) ] in
          let rest = pick_paths a b query paths z in
          let out = if is_none z.0 || is_none z.1 then rest else z in
          (out.0 ≡ none → (x ≡ none) × (Absent a o × Missing a query paths))
          × (out.1 ≡ none → (y ≡ none) × (Absent b o × Missing b query paths))
    here ih (err e) =
        let (left, right) = stopped ih (x, y) (x ≡ none) (y ≡ none) (λ h. h) (λ h. h) in
        (λ h. let (l, m) = left h in (l, (tt, m)), λ h. let (r, m) = right h in (r, (tt, m)))
    here ih (ok runs) =
        let (f, g) = pick-none a b runs x y in
        let (left, right) = stopped ih (pick a b runs (x, y)) _ _ f g in
        (
          λ h. let ((l, m), n) = left h in (l, (m, n)),
          λ h. let ((l, m), n) = right h in (l, (m, n)),
        )

module _ (P : RunRecord → Type 0) where
  abbrev pub Sound : ℤ → Option RunRecord → Type 0
  Sound id none = Unit
  Sound id (some r) = (pos r.id ≡ id) × P r

  keep-Sound :
      (id : ℤ) (r : RunRecord) (old : Option RunRecord)
      → P r
      → Sound id old
      → Sound id (keep id r old)
  unfolding keep
  keep-Sound id r (some s) p h = if_ind_of (pos r.id == id) h
    where
      if_ind_of : (b : Bool) → Sound id (some s) → Sound id (if b && false then some r else some s)
      if_ind_of true k = k
      if_ind_of false k = k
  keep-Sound id r none p h = go (pos r.id == id) refl
    where
      go : (b : Bool) → (pos r.id == id) ≡ b → Sound id (if b && true then some r else none)
      go true e = ((==_iff (pos r.id) id).0 e, p)
      go false e = tt

  pick-Sound :
      (a b : ℤ) (runs : List RunRecord) (x y : Option RunRecord)
      → All P runs
      → Sound a x
      → Sound b y
      → Sound a (pick a b runs (x, y)).0 × Sound b (pick a b runs (x, y)).1
  unfolding pick
  pick-Sound a b [] x y h hx hy = (hx, hy)
  pick-Sound a b (r ∷ runs) x y h hx hy =
      pick-Sound a b runs (keep a r x) (keep b r y) h.1 (keep-Sound a r x h.0 hx)
        (keep-Sound b r y h.0 hy)

  pub pick_paths-Sound :
      (a b : ℤ) (query : String → Result (List RunRecord)) (paths : List String)
      (x y : Option RunRecord)
      → ((p : String) (runs : List RunRecord)
          → contains paths p ≡ true
          → query p ≡ ok runs
          → All P runs)
      → Sound a x
      → Sound b y
      → Sound a (pick_paths a b query paths (x, y)).0
        × Sound b (pick_paths a b query paths (x, y)).1
  unfolding pick_paths
  pick_paths-Sound a b query [] x y from hx hy = (hx, hy)
  pick_paths-Sound a b query (q ∷ paths) x y from hx hy =
      let next : Pair = elim (query q) as (λ _. Pair) [
        | err e ↦ (x, y)
        | ok runs ↦ pick a b runs (x, y)
      ] in
      let here = answered (query q) refl in
      if_ind (λ (z : Pair). Sound a z.0 × Sound b z.1) (is_none next.0 || is_none next.1)
        (pick_paths-Sound a b query paths next.0 next.1
          (λ p runs m k. from p runs (ground (arith, m)) k) here.0 here.1)
        here
    where
      answered :
          (r : Result (List RunRecord))
          → query q ≡ r
          → let z = elim r as (λ _. Pair) [ err e ↦ (x, y) | ok runs ↦ pick a b runs (x, y) ] in
            Sound a z.0 × Sound b z.1
      answered (err e) k = (hx, hy)
      answered (ok runs) k =
          pick-Sound a b runs x y (from q runs (ground (arith, ==_refl q)) k) hx hy
