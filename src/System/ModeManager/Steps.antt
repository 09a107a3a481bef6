-- ===== src/System/ModeManager/Steps.antt =====
-- One decision or one time limit: the mode change that it makes.
use rnde_m.Prelude.{ℕ, ◌+◌, ◌≡◌, Bool, true, false, Option, List, [], ◌∷◌, ◌++◌, arith, Text}
use rnde_m.System.State.{
  SystemMode, active, consolidation, recovery, other, is_active, is_consolidation, is_recovery,
  ActionIds, ModeIds,
}
use rnde_m.System.ModeManager.{
  ModeChange, Manager, decide, listed, limit_consolidation, limit_recovery,
}

-- The cycle of modes.
abbrev pub legal : SystemMode → SystemMode → Bool
legal active to = is_consolidation to
legal consolidation to = is_recovery to
legal recovery to = is_active to
legal (other name) to = false

-- Changes at one tick that lead from one mode and number to another, each along the cycle.
abbrev pub Chain : ℕ → SystemMode → ℕ → List ModeChange → SystemMode → ℕ → Type 0
Chain tick from n [] to k = (from ≡ to) × (n ≡ k)
Chain tick from n (c ∷ cs) to k =
    (c.from_mode ≡ from)
    × (legal from c.to_mode ≡ true)
    × (c.mode_change_number ≡ n + 1)
    × (c.tick ≡ tick)
    × Chain tick c.to_mode (n + 1) cs to k

pub Chain-append :
    (tick : ℕ) (a b c : SystemMode) (n k l : ℕ) (xs ys : List ModeChange)
    → Chain tick a n xs b k
    → Chain tick b k ys c l
    → Chain tick a n (xs ++ ys) c l
Chain-append tick a b c n k l [] ys h g = rw (h.0, h.1) g
Chain-append tick a b c n k l (x ∷ xs) ys h g =
    (h.0, h.1, h.2, h.3, Chain-append tick x.to_mode b c (n + 1) k l xs ys h.4 g)

-- A step that makes at most one change, from the manager before to the manager after.
abbrev pub ChainStep : ℕ → Manager → Option ModeChange × Manager → Type 0
ChainStep tick m (change, end) =
    Chain tick m.system.mode m.mode_changes (listed change) end.system.mode end.mode_changes

-- Every branch makes no change, or one along the cycle that continues the chain.
module _ (a : ActionIds) (ids : ModeIds) where
  pub decide-Chain :
      (tick : ℕ) (id : Text) (pattern : Option Text) (m : Manager)
      → ChainStep tick m (decide a ids tick id pattern m)
  unfolding decide
  decide-Chain tick id pattern m = ground arith

pub limit_consolidation-Chain :
    (ids : ModeIds) (tick : ℕ) (m : Manager) → ChainStep tick m (limit_consolidation ids tick m)
unfolding limit_consolidation
limit_consolidation-Chain ids tick m = ground arith

pub limit_recovery-Chain : (tick : ℕ) (m : Manager) → ChainStep tick m (limit_recovery tick m)
unfolding limit_recovery
limit_recovery-Chain tick m = ground arith
