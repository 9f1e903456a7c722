-- ===== src/Engine/Bounds.antt =====
-- The percentage of the actions of a pass.
use Prim.Native.Nat.{◌/◌}
use sync_hub_for_agents.Base.{
  ℕ, suc, ◌+◌, ◌*◌, ◌≤◌, ◌<◌, ◌≡◌, ◌∙◌, ap, refl, arith, nat_eq, ℕ_discrete,
}
use sync_hub_for_agents.Engine.{action_percentage}

quotient_low : (x t : ℕ) → suc t * (x / suc t) ≤ x
quotient_low x t = grind arith

quotient_high : (x t : ℕ) → x < suc t * suc (x / suc t)
quotient_high x t = grind arith

quotient_le : (x t : ℕ) → x ≤ suc t * 15 → x / suc t ≤ 15
quotient_le x t h = grind arith

quotient_mono : (x y t : ℕ) → x ≤ y → x / suc t ≤ y / suc t
quotient_mono x y t h = grind arith

quotient_of_product : (t : ℕ) → (suc t * 15) / suc t ≡ 15
quotient_of_product t = grind arith

action_percentage-suc :
    (completed t : ℕ) → action_percentage completed (suc t) ≡ 60 + (completed * 15) / suc t
unfolding action_percentage
action_percentage-suc completed t = ground arith

distribute : (t q : ℕ) → suc t * (60 + q) ≡ suc t * 60 + suc t * q
distribute t q = grind arith

distribute_suc : (t q : ℕ) → suc t * suc (60 + q) ≡ suc t * 60 + suc t * suc q
distribute_suc t q = grind arith

shifted_by :
    (t q x : ℕ)
    → suc t * q ≤ x
    → x < suc t * suc q
    → (suc t * (60 + q) ≤ suc t * 60 + x) × (suc t * 60 + x < suc t * suc (60 + q))
shifted_by t q x l h = (omega (arith, l, distribute t q), omega (arith, h, distribute_suc t q))

shifted :
    (t q x p : ℕ)
    → p ≡ 60 + q
    → suc t * q ≤ x
    → x < suc t * suc q
    → (suc t * p ≤ suc t * 60 + x) × (suc t * 60 + x < suc t * suc p)
shifted t q x p e l h = rw e (shifted_by t q x l h)

-- The percentage of a pass with actions is the whole number with
-- `60 + 15 * completed / total - 1 < percentage ≤ 60 + 15 * completed / total`, so it is rounded down
-- once; while at most all actions are completed it lies between 60 and 75, does not fall as one more
-- is completed, is 75 when all are, as in a pass without actions, and, with at most 2 ^ 59 actions,
-- the product that it is computed from is below 2 ^ 63.
pub action_percentage-bounds :
    (completed t : ℕ)
    → completed ≤ suc t
    → suc t ≤ 576460752303423488
    → (suc t * action_percentage completed (suc t) ≤ suc t * 60 + completed * 15)
      × (suc t * 60 + completed * 15 < suc t * suc (action_percentage completed (suc t)))
      × (60 ≤ action_percentage completed (suc t))
      × (action_percentage completed (suc t) ≤ 75)
      × (action_percentage completed (suc t) ≤ action_percentage (suc completed) (suc t))
      × (action_percentage (suc t) (suc t) ≡ 75)
      × (action_percentage 0 0 ≡ 75)
      × (completed * 15 < 9223372036854775808)
unfolding action_percentage nat_eq ℕ_discrete
action_percentage-bounds completed t h small =
    let here = action_percentage-suc completed t in
    let next = action_percentage-suc (suc completed) t in
    let rounded =
      shifted t ((completed * 15) / suc t) (completed * 15) (action_percentage completed (suc t))
        here (quotient_low (completed * 15) t) (quotient_high (completed * 15) t) in
    (
      rounded.0,
      rounded.1,
      omega (arith, here),
      omega (arith, here, quotient_le (completed * 15) t (omega (arith, h))),
      omega
          (arith, here, next, quotient_mono (completed * 15) (suc completed * 15) t (omega arith)),
      action_percentage-suc (suc t) t ∙ ap (λ n. 60 + n) (quotient_of_product t),
      refl,
      omega (arith, h, small),
    )
