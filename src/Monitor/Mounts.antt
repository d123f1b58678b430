-- ===== src/Monitor/Mounts.antt =====
-- The mount that `deviceForPath` of internal/monitor/drive.go chooses.
use Prim.Native.String.{len}
use bit_rot_detector.Base.{
  ◌≤◌, String, Bool, true, false, ◌&&◌, [], ◌∷◌, ◌++◌, ◌≡◌, ◌⊎◌, inl, inr, refl, ap, arith, All,
  ltb, subst, sym, if◌then◌else◌,
}
use bit_rot_detector.Base.Dict.{Dict}
use bit_rot_detector.Monitor.{Platform, best_mount}

abbrev Mount : Type 0
Mount = String × String

module _ (os : Platform) (path : String) where
  -- The mount is one of the list, and the path begins with its mount point.
  abbrev pub Holds : Dict String → Mount → Type 0
  Holds mounts best =
      (os.has_prefix path best.1 ≡ true)
      × ((before : Dict String) × (after : Dict String) × (mounts ≡ before ++ (best ∷ after)))

  -- No mount point that the path begins with is longer.
  abbrev pub Longest : Dict String → Mount → Type 0
  Longest mounts best =
      All (λ (m : Mount). (os.has_prefix path m.1 ≡ false) ⊎ (len m.1 ≤ len best.1)) mounts

  -- The choice between two.
  abbrev better : Mount → Mount → Mount
  better m best = if os.has_prefix path m.1 && ltb (len best.1) (len m.1) then m else best

  -- What a choice over the rest keeps of what was best before.
  abbrev Chosen : Dict String → Mount → Mount → Type 0
  Chosen mounts old new =
      ((new ≡ old) ⊎ Holds mounts new) × (len old.1 ≤ len new.1) × Longest mounts new

  later : (m new : Mount) (mounts : Dict String) → Holds mounts new → Holds (m ∷ mounts) new
  later m new mounts (inside, (before, after, split)) =
      (inside, (m ∷ before, after, ap (λ l. m ∷ l) split))

  keeps_old :
      (m old new : Mount) (mounts : Dict String)
      → (os.has_prefix path m.1 ≡ false) ⊎ (len m.1 ≤ len old.1)
      → Chosen mounts old new
      → Chosen (m ∷ mounts) old new
  keeps_old m old new mounts beaten (from, grown, longest) = (
    elim from [ inl same ↦ inl same | inr held ↦ inr (later m new mounts held) ],
    grown,
    (elim beaten [ inl out ↦ inl out | inr short ↦ inr (omega (arith, short, grown)) ], longest),
  )

  takes_new :
      (m old new : Mount) (mounts : Dict String)
      → os.has_prefix path m.1 ≡ true
      → len old.1 ≤ len m.1
      → Chosen mounts m new
      → Chosen (m ∷ mounts) old new
  takes_new m old new mounts inside deeper (from, grown, longest) = (
    inr (elim from [
      | inl same ↦ subst (Holds (m ∷ mounts)) (sym same) (inside, ([], mounts, refl))
      | inr held ↦ later m new mounts held
    ]),
    omega (arith, deeper, grown),
    (inr grown, longest),
  )

  Chosen-next :
      (m old new : Mount) (mounts : Dict String)
      → Chosen mounts (better m old) new
      → Chosen (m ∷ mounts) old new
  Chosen-next m old new mounts h =
      go (os.has_prefix path m.1) refl (ltb (len old.1) (len m.1)) refl h
    where
      go :
          (inside : Bool)
          → os.has_prefix path m.1 ≡ inside
          → (deeper : Bool) → ltb (len old.1) (len m.1) ≡ deeper
          → Chosen mounts (if inside && deeper then m else old) new
          → Chosen (m ∷ mounts) old new
      go false out deeper e k = keeps_old m old new mounts (inl out) k
      go true inside false e k = keeps_old m old new mounts (inr (ground (arith, e))) k
      go true inside true e k = takes_new m old new mounts inside (ground (arith, e)) k

  best_mount-Chosen :
      (mounts : Dict String) (old : Mount) → Chosen mounts old (best_mount os path mounts old)
  unfolding best_mount
  best_mount-Chosen [] old = (inl refl, omega arith, tt)
  best_mount-Chosen (m ∷ mounts) old =
      Chosen-next m old _ mounts (best_mount-Chosen mounts (better m old))

  -- The search over the mounts ends with a mount point that the path begins with, or with the empty one
  -- that it began with; and no mount point that the path begins with is longer.
  pub best_mount_lem :
      (mounts : Dict String)
      → let best = best_mount os path mounts ("", "") in
        ((best ≡ ("", "")) ⊎ Holds mounts best) × Longest mounts best
  best_mount_lem mounts =
      let (from, _, longest) = best_mount-Chosen mounts ("", "") in (from, longest)
