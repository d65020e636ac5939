-- ===== src/GraduallyUpdate/Progress.antt =====
-- About one step of a value (`_on_finalize` of gradually-update/src/lib.rs): when it panics, and how many
-- steps reach the target.
use open_runtime_module_libr.GraduallyUpdate.Types.{Config}
use open_runtime_module_libr.Prelude.{
  min, inr, max, inl, ltb, ◌<◌, Bool-cases, ◌↔◌, arith, some, ◌⊎◌, none, ◌+◌, ◌≤◌, ◌-◌, ◌≡◌, ℕ,
}
use open_runtime_module_libr.GraduallyUpdate.Calls.{new_value}

abbrev pub distance : ℕ → ℕ → ℕ
distance a b = (a - b) + (b - a)

module _ (cfg : Config) where
  -- One step of a value panics exactly when the target is below the value and the value below the
  -- step, or when the value plus the step is no u128 and the target is not below the value.
  pub new_value-panics :
      (current step target : ℕ)
      → (new_value cfg current step target ≡ none) ↔ (
          ((target < current) × (current < step))
          ⊎ ((current ≤ target) × (cfg.max_u128 < current + step)))
  unfolding new_value
  new_value-panics current step target = ground arith

  -- Otherwise the value comes nearer to the target by the step, and never passes it.
  pub record Approaches (current step target value : ℕ) : Type 0 where
    pub nearer : distance value target ≡ distance current target - step
    pub between : ((current ≤ value) × (value ≤ target)) ⊎ ((target ≤ value) × (value ≤ current))

  pub new_value-Approaches :
      (current step target value : ℕ)
      → new_value cfg current step target ≡ some value
      → Approaches current step target value
  unfolding new_value
  new_value-Approaches current step target value h = record {
    nearer = ground arith;
    between = ground arith;
  }

  pub new_value-returns :
      (current step target : ℕ)
      → step ≤ target
      → target + step ≤ cfg.max_u128
      → (value : ℕ) × (new_value cfg current step target ≡ some value)
  unfolding new_value
  new_value-returns current step target small room = elim (Bool-cases (ltb target current)) [
    | inl down ↦ (max target (current - step), ground arith)
    | inr up ↦ (min target (current + step), ground arith)
  ]
