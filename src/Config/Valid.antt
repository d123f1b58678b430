-- ===== src/Config/Valid.antt =====
-- What `Load` of internal/config/config.go promises of the configuration that it returns.
use bit_rot_detector.Base.{
  some_inj, ℕ, ◌≤◌, String, Bool, true, false, Option, none, some, List, [], ◌∷◌, ◌==◌, ◌≡◌, refl,
  ap, ◌∙◌, subst, arith, string_eq, length, if◌then◌else◌,
}
use bit_rot_detector.Base.Int.{ℤ, pos, negsuc}
use bit_rot_detector.Domain.{Result, ok, err, ok_inj}
use bit_rot_detector.Config.{
  Lookup, Config, positive, is_frequency, is_log_level, at_most, within, one_of, some_of, require,
  bind, load_from, load,
}
use bit_rot_detector.Config.Paths.{Good, Covers, collect_paths-Good}

module _ (go : Lookup) where
  open go use {getenv, split, trim, less, lowest, highest}

  abbrev Bounds : ℕ → go.Float → ℕ → Type 0
  Bounds p pct workers =
      (1 ≤ p)
      × (p ≤ 65_535)
      × (less pct lowest ≡ false)
      × (less highest pct ≡ false)
      × (1 ≤ workers)

  -- The paths are there, distinct and at least one, and the other values are in their ranges.
  pub record IsValid (c : Config go.Float) : Type 0 where
    pub some_path : 1 ≤ length c.target_paths
    pub paths : Good go c.target_paths
    pub covered : Covers go (split (getenv "TARGET_DIRECTORY")) c.target_paths
    pub bounds : Bounds ((c.email).port) c.scrub_percentage c.max_workers
    pub frequency : is_frequency go c.scrub_frequency ≡ true
    pub level : is_log_level go c.log_level ≡ true

  positive_lem : (x : ℤ × Bool) (n : ℕ) → positive x ≡ some n → 1 ≤ n
  unfolding positive
  positive_lem (n, true) k h = absurd (ground (arith, h))
  positive_lem (negsuc n, false) k h = absurd (ground (arith, h))
  positive_lem (pos n, false) k h = ground (arith, h)

  at_most_lem : (top : ℕ) (o : Option ℕ) (n : ℕ) → at_most top o ≡ some n → (o ≡ some n) × (n ≤ top)
  unfolding at_most
  at_most_lem top none n h = absurd (ground (arith, h))
  at_most_lem top (some k) n h = ground (arith, h)

  within_lem :
      (o : Option go.Float) (x : go.Float)
      → within go o ≡ some x
      → (less x lowest ≡ false) × (less highest x ≡ false)
  within_lem none x h = absurd (ground (arith, h))
  within_lem (some y) x h = ground (arith, h)

  one_of_lem : (valid : String → Bool) (s t : String) → one_of valid s ≡ some t → valid t ≡ true
  one_of_lem valid s t h = ground (arith, h)

  some_of_lem : (ps qs : List String) → some_of ps ≡ some qs → (ps ≡ qs) × (1 ≤ length qs)
  some_of_lem [] qs h = absurd (ground (arith, h))
  some_of_lem (p ∷ ps) qs h =
      let e : (p ∷ ps) ≡ qs = some_inj h in (e, subst (λ l. 1 ≤ length l) e (omega arith))

  -- What follows from each value that `Load` can go on with, follows.
  require_lem {ℓ κ μ} :
      {A : Type ℓ}
      → {B : Type κ} → {P : Type μ} → (o : Option A) (message : String) (k : A → Result B) {b : B}
      → require o message k ≡ ok b
      → ((a : A) → o ≡ some a → k a ≡ ok b → P)
      → P
  unfolding require
  require_lem none message k h use_it = absurd (ground (arith, h))
  require_lem (some a) message k h use_it = use_it a refl h

  bind_lem {ℓ κ μ} :
      {A : Type ℓ}
      → {B : Type κ} → {P : Type μ} → (r : Result A) (k : A → Result B) {b : B} → bind r k ≡ ok b
      → ((a : A) → r ≡ ok a → k a ≡ ok b → P)
      → P
  unfolding bind
  bind_lem (err e) k h use_it = absurd (ground (arith, h))
  bind_lem (ok a) k h use_it = use_it a refl h

  loaded : (c : Config go.Float) → load_from go (getenv "TARGET_DIRECTORY") ≡ ok c → IsValid c
  unfolding load_from
  loaded c h = bind_lem _ _ h (λ paths collected h1.
      require_lem _ _ _ h1 (λ targets some_targets h2. require_lem _ _ _ h2 (λ smtp_port a_port h3.
        require_lem _ _ _ h3 (λ pct a_pct h4. require_lem _ _ _ h4 (λ freq a_freq h5.
          require_lem _ _ _ h5 (λ workers some_workers h6. require_lem _ _ _ h6 (λ level a_level h7.
            let (same, filled) = some_of_lem paths targets some_targets in
            let (good, _, covers) =
              collect_paths-Good go (split (getenv "TARGET_DIRECTORY")) [] targets (tt, tt)
                (collected ∙ ap ok same) in
            let (positive_port, port_max) = at_most_lem _ _ smtp_port a_port in
            let (pct_low, pct_high) = within_lem _ pct a_pct in
            subst IsValid (ok_inj h7) (record {
              some_path = filled;
              paths = good;
              covered = covers;
              bounds = (
                positive_lem _ smtp_port positive_port,
                port_max,
                pct_low,
                pct_high,
                positive_lem _ workers some_workers,
              );
              frequency = one_of_lem (is_frequency go) _ freq a_freq;
              level = one_of_lem (is_log_level go) _ level a_level;
            }))))))))

  -- A configuration that `Load` returns is valid.
  pub load-IsValid : (c : Config go.Float) → load go ≡ ok c → IsValid c
  unfolding load
  load-IsValid c h = set (getenv "TARGET_DIRECTORY" == "") h
    where
      set :
          (b : Bool)
          → (if b then err "TARGET_DIRECTORY not set" else load_from go (getenv "TARGET_DIRECTORY"))
            ≡ ok c
          → IsValid c
      set true h = absurd (ground (arith, h))
      set false h = loaded c h
