-- ===== src/Attempt/Clocks/Times.antt =====
-- When the read loop wakes up, and the deadlines that it waits for.
use beta_boot_git_ops.Attempt.Clocks.{
  World, Arm, overall, Clocks, window, due, earlier, no_sooner, first_due, wakes_at, is_due, ready,
}
use beta_boot_git_ops.Config.{OpenAiConfig}
use native.Mathlib.Nat.{le_trans}
use beta_boot_git_ops.Base.{
  ℕ, ◌+◌, ◌≤◌, ◌≡◌, refl, sym, ◌∙◌, subst, ◌⊎◌, inl, inr, true, Option, none, some, List, [], ◌∷◌,
  arith, Bool-cases,
}

module _ (cfg : OpenAiConfig) (w : World) where
  -- The loop waits in time.
  pub record InTime (c : Clocks) : Type 0 where
    pub read_before : c.last_read_at ≤ c.now
    pub by_deadline : c.now ≤ cfg.overall_deadline
    pub by_stall : c.now ≤ c.last_read_at + window cfg w c.read_seq

  earlier-le : (t : ℕ) (o : Option ℕ) → earlier cfg w t o ≤ t
  earlier-le t none = omega arith
  earlier-le t (some u) = ground arith

  earlier-le_some : (t u : ℕ) → earlier cfg w t (some u) ≤ u
  earlier-le_some t u = ground arith

  first_due-le :
      (c : Clocks)
      → (first_due cfg w c ≤ cfg.overall_deadline)
        × (first_due cfg w c ≤ c.last_read_at + window cfg w c.read_seq)
  unfolding first_due due
  first_due-le c =
      let e1 = earlier cfg w cfg.overall_deadline w.cancelled_at in
      let e2 = earlier cfg w e1 (some c.next_tick) in
      let stalls_at = c.last_read_at + window cfg w c.read_seq in
      let e3 = earlier cfg w e2 (some stalls_at) in
      let at_last : earlier cfg w e3 c.item_at ≤ e3 = earlier-le e3 c.item_at in
      let by_e2 : e3 ≤ e2 = earlier-le e2 (some stalls_at) in
      let by_e1 : e2 ≤ e1 = earlier-le e1 (some c.next_tick) in
      let by_deadline : e1 ≤ cfg.overall_deadline =
        earlier-le cfg.overall_deadline w.cancelled_at in
      let by_stall : e3 ≤ stalls_at = earlier-le_some e2 stalls_at in
      (le_trans at_last (le_trans by_e2 (le_trans by_e1 by_deadline)), le_trans at_last by_stall)

  no_sooner-between :
      (now t bound : ℕ)
      → now ≤ bound
      → t ≤ bound
      → (now ≤ no_sooner cfg w now t) × (no_sooner cfg w now t ≤ bound)
  no_sooner-between now t bound h h' = ground arith

  pub wakes_at-InTime :
      (c : Clocks)
      → InTime c
      → let t = wakes_at cfg w c in
        (c.now ≤ t) × (t ≤ cfg.overall_deadline) × (t ≤ c.last_read_at + window cfg w c.read_seq)
  unfolding wakes_at
  wakes_at-InTime c h =
      let first = first_due cfg w c in
      let (by, soon) = first_due-le c in
      let (later, in_time) = no_sooner-between c.now first cfg.overall_deadline h.by_deadline by in
      (
        later,
        in_time,
        (no_sooner-between c.now first (c.last_read_at + window cfg w c.read_seq) h.by_stall
            soon).1,
      )

  -- An arm that is taken was due, but for the deadline.
  pub ready-due :
      (c : Clocks) (t : ℕ) (as_ : List Arm) (a : Arm)
      → ready cfg w c t as_ ≡ a
      → (a ≡ overall) ⊎ (is_due cfg w t (due cfg w c a) ≡ true)
  unfolding ready
  ready-due c t [] a e = inl (sym e)
  ready-due c t (b ∷ bs) a e = elim (Bool-cases (is_due cfg w t (due cfg w c b))) [
    | inl yes_ ↦
        let same : b ≡ a = sym (rw yes_ refl) ∙ e in
        inr (subst (λ x. is_due cfg w t (due cfg w c x) ≡ true) same yes_)
    | inr not_yet ↦ ready-due c t bs a (sym (rw not_yet refl) ∙ e)
  ]
