-- ===== src/Tests/Guards.antt =====
-- The gauge of active streams, and what is sent for a line.
use beta_boot_git_ops.ActiveGuard.{
  Guards, enter, leave, enters, drops, Reach, here, next, none_active, Reach-gauge,
}
use beta_boot_git_ops.Base.{◌≡◌, refl, [], ◌∷◌, arith}

-- Two streams begin, and the first one ends.
abbrev one_left : Guards
one_left = record { gauge = 1; alive = 2 ∷ [] }

interleaved : Reach none_active one_left
unfolding none_active enter leave
interleaved =
    next (next (next here (enters none_active 1)) (enters (record { gauge = 1; alive = 1 ∷ [] }) 2))
      (drops (record { gauge = 2; alive = 2 ∷ 1 ∷ [] }) 1 (2 ∷ []) [] refl)

Reach-gauge_example : one_left.gauge ≡ 1
Reach-gauge_example = Reach-gauge interleaved (omega arith)
