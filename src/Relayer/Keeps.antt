-- ===== src/Relayer/Keeps.antt =====
-- Invariants of the relayer's steps, for each way to build a step.
use obscura_network.Prelude.{Bool, true, false, Result, ok, err, if◌then◌else◌}
use obscura_network.Prelude.Exec.{Exec, continue, ◌>>=◌, pure}
use obscura_network.Beacon.Types.{Failure}
use obscura_network.Relayer.Types.{Outside}
use obscura_network.Relayer.Loop.{BridgeRelayer}

pub record Keeps (o : Outside) (P : BridgeRelayer o → Type 0) {A : Type 0}
    (m : Exec Failure (BridgeRelayer o) A) : Type 0 where
  pub at : (s : BridgeRelayer o) → P s → P (m s).1

module _ (o : Outside) (P : BridgeRelayer o → Type 0) {A B : Type 0} where
  pub Keeps-bind :
      (m : Exec Failure (BridgeRelayer o) A) (f : A → Exec Failure (BridgeRelayer o) B)
      → Keeps o P m
      → ((a : A) → Keeps o P (f a))
      → Keeps o P (m >>= f)
  Keeps-bind m f p q = record { at = λ s i. go (m s) (p.at s i) }
    where
      go : (r : Result Failure A × BridgeRelayer o) → P r.1 → P (continue r f).1
      go (ok a, s) i = (q a).at s i
      go (err e, s) i = i

module _ (o : Outside) (P : BridgeRelayer o → Type 0) {A : Type 0} where
  pub Keeps-pure : (a : A) → Keeps o P (pure a)
  Keeps-pure a = record { at = λ s i. i }

  pub Keeps-if :
      (b : Bool) (m n : Exec Failure (BridgeRelayer o) A)
      → Keeps o P m
      → Keeps o P n
      → Keeps o P (if b then m else n)
  Keeps-if true m n p q = p
  Keeps-if false m n p q = q

  -- A step that is taken under a test of the state.
  pub kept-if :
      (b : Bool) (m : Result Failure A × BridgeRelayer o) (a : A) (s : BridgeRelayer o)
      → P m.1
      → P s
      → P (if b then m else (ok a, s)).1
  kept-if true m a s p q = p
  kept-if false m a s p q = q
