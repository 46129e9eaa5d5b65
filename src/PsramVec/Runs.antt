-- ===== src/PsramVec/Runs.antt =====
-- Of every run of elements with the same key the last: what `partition_dedup_by` keeps.
use chiyocore.Base.{◌≡◌, refl, Bool, true, false, [], ◌∷◌, if◌then◌else◌}
use chiyocore.PsramVec.{PsramVec}

module _ {K V : Type 0} (same : K → K → Bool) where
  -- Of every run of elements with the same key the last.
  unfoldable pub last_of_runs : PsramVec K V → PsramVec K V
  last_of_runs [] = []
  last_of_runs (x ∷ []) = x ∷ []
  last_of_runs (x ∷ y ∷ rest) =
      let later = last_of_runs (y ∷ rest) in if same y.0 x.0 then later else x ∷ later

  pub last_of_runs-nil : last_of_runs [] ≡ []
  unfolding last_of_runs
  last_of_runs-nil = refl

  pub last_of_runs-one : (x : K × V) → last_of_runs (x ∷ []) ≡ x ∷ []
  unfolding last_of_runs
  last_of_runs-one x = refl

  pub last_of_runs-same :
      (x y : K × V) (rest : PsramVec K V)
      → same y.0 x.0 ≡ true
      → last_of_runs (x ∷ y ∷ rest) ≡ last_of_runs (y ∷ rest)
  unfolding last_of_runs
  last_of_runs-same x y rest h = rw h refl

  pub last_of_runs-other :
      (x y : K × V) (rest : PsramVec K V)
      → same y.0 x.0 ≡ false
      → last_of_runs (x ∷ y ∷ rest) ≡ x ∷ last_of_runs (y ∷ rest)
  unfolding last_of_runs
  last_of_runs-other x y rest h = rw h refl
