-- ===== src/Space.antt =====
-- src/chai/ExecutionSpaces.hpp: the execution spaces, and the build's switches that say which there
-- are. An array of the source with NUM_EXECUTION_SPACES entries is a function of the space.
pub mod Facts
use chai.Base.{◌≡◌, refl, ite, Bool, ◌||◌, List, [], ◌∷◌, if◌then◌else◌}

pub data ExecutionSpace : Type 0 where
  none cpu gpu um pinned : ExecutionSpace

-- The macros CHAI_ENABLE_CUDA, _HIP, _GPU_SIMULATION_MODE, _UM and _PINNED of chai/config.hpp.
pub record Config : Type 0 where
  pub cuda : Bool
  pub hip : Bool
  pub gpu_simulation : Bool
  pub um : Bool
  pub pinned : Bool

abbrev pub has_gpu : Config → Bool
has_gpu c = c.cuda || (c.hip || c.gpu_simulation)

unfoldable pub space_dec : Discrete ExecutionSpace
space_dec = hlevel

-- An array with an entry for each space, written at one.
abbrev pub update {ℓ} :
    {A : Type ℓ} → (ExecutionSpace → A) → ExecutionSpace → A → ExecutionSpace → A
update f s v t = ite (space_dec s t) v (f t)

abbrev pub enabled : Bool → ExecutionSpace → List ExecutionSpace → List ExecutionSpace
enabled b s rest = if b then s ∷ rest else rest

-- The range of `for (int space = CPU; space < NUM_EXECUTION_SPACES; ++space)`.
unfoldable pub spaces : Config → List ExecutionSpace
spaces c = cpu ∷ enabled (has_gpu c) gpu (enabled c.um um (enabled c.pinned pinned []))

-- The same from NONE, the first enumerator.
unfoldable pub all_spaces : Config → List ExecutionSpace
unfolding spaces
all_spaces c = none ∷ spaces c

module _ {ℓ} {A : Type ℓ} where
  -- `for (space : ss) f[space] = v`
  unfoldable pub fill : List ExecutionSpace → A → (ExecutionSpace → A) → ExecutionSpace → A
  fill [] v f = f
  fill (s ∷ ss) v f = fill ss v (update f s v)
