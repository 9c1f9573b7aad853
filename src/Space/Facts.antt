-- ===== src/Space/Facts.antt =====
-- Which spaces the loops of a build visit.
use chai.Base.{◌≡◌, refl, List, [], ◌∷◌, ◌⊎◌, inl, true, arith}
use chai.Space.{gpu, has_gpu, ExecutionSpace, none, cpu, um, pinned, Config, spaces}

-- A space is visited by the loops of the build.
abbrev pub Visited : ExecutionSpace → List ExecutionSpace → Type 0
Visited s [] = ⊥
Visited s (t ∷ ts) = (s ≡ t) ⊎ Visited s ts

pub cpu-Visited : (c : Config) → Visited cpu (spaces c)
unfolding spaces
cpu-Visited c = inl refl

pub gpu-Visited : (c : Config) → has_gpu c ≡ true → Visited gpu (spaces c)
unfolding spaces
gpu-Visited c h = ground arith

pinned-Visited : (c : Config) → c.pinned ≡ true → Visited pinned (spaces c)
unfolding spaces
pinned-Visited c h = ground arith

pub none-not-Visited : (c : Config) → ¬ (Visited none (spaces c))
unfolding spaces
none-not-Visited c h = ground arith

pub um-build : (c : Config) → Visited um (spaces c) → c.um ≡ true
unfolding spaces
um-build c v = ground arith

pub pinned-build : (c : Config) → Visited pinned (spaces c) → c.pinned ≡ true
unfolding spaces
pinned-build c v = ground arith

-- No space is visited twice.
abbrev pub IsSimple : List ExecutionSpace → Type 0
IsSimple [] = Unit
IsSimple (s ∷ ss) = (¬ (Visited s ss)) × IsSimple ss

pub spaces-IsSimple : (c : Config) → IsSimple (spaces c)
unfolding spaces
spaces-IsSimple c = ground arith
