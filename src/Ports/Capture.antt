-- ===== src/Ports/Capture.antt =====
-- The capture file holds every record, in order, but for the last few.
use beta_boot_git_ops.Emission.{EmissionRecord}
use beta_boot_git_ops.Ports.{
  CaptureSink, create, is_boundary, line_of, capture_write, capture_write_all,
}
use beta_boot_git_ops.Base.{
  ℕ, ◌+◌, ◌<◌, ◌≡◌, refl, sym, ap, ◌∙◌, subst, inl, inr, Bool, true, false, ◌||◌, List, [], ◌∷◌,
  ◌++◌, map, append-nil, append_assoc, map-append, arith, leb, Bool-cases, length, snoc,
  length-snoc, Result, u32, Text,
}

module _ (to_string : EmissionRecord → Result Text Text) where
  abbrev pub line : EmissionRecord → Text
  line r = line_of (to_string r)

  -- The lines of these records were flushed or are pending, and few are pending.
  pub record Holds (c : CaptureSink) (rs : List EmissionRecord) : Type 0 where
    pub lines : c.flushed ++ c.pending ≡ map line rs
    pub count : c.since_flush ≡ length c.pending
    pub few : length c.pending < 64

  below : (boundary : Bool) (n : ℕ) → boundary || leb 64 n ≡ false → n < 64
  below true n h = cc
  below false n h = ground arith

  emptied : CaptureSink → EmissionRecord → CaptureSink
  emptied c r = record c {
    flushed = c.flushed ++ snoc c.pending (line r);
    pending = [];
    since_flush = 0;
  }

  snoc-lines :
      (c : CaptureSink) (rs : List EmissionRecord) (r : EmissionRecord)
      → Holds c rs
      → c.flushed ++ snoc c.pending (line r) ≡ map line (snoc rs r)
  snoc-lines c rs r q =
      sym (append_assoc c.flushed c.pending (line r ∷ [])) ∙ rw (q.lines, map-append) refl

  emptied-Holds :
      (c : CaptureSink) (rs : List EmissionRecord) (r : EmissionRecord)
      → Holds c rs
      → Holds (emptied c r) (snoc rs r)
  unfolding emptied
  emptied-Holds c rs r q = record {
    lines = append-nil (c.flushed ++ snoc c.pending (line r)) ∙ snoc-lines c rs r q;
    count = refl;
    few = omega arith;
  }

  capture_write-Holds :
      (c : CaptureSink) (rs : List EmissionRecord) (r : EmissionRecord)
      → Holds c rs
      → Holds (capture_write to_string c r) (snoc rs r)
  unfolding capture_write emptied
  capture_write-Holds c rs r q =
      elim (Bool-cases (is_boundary r || leb 64 (u32 (c.since_flush + 1)))) [
        | inl full ↦ rw full (emptied-Holds c rs r q)
        | inr room ↦ rw room (record {
          lines = snoc-lines c rs r q;
          count = omega (arith, q.count, q.few, length-snoc c.pending (line r));
          few =
              let small = below (is_boundary r) (u32 (c.since_flush + 1)) room in
              omega (arith, small, q.count, q.few, length-snoc c.pending (line r));
        })
      ]

  capture_write_all-Holds :
      (c : CaptureSink) (before rs : List EmissionRecord)
      → Holds c before
      → Holds (capture_write_all to_string c rs) (before ++ rs)
  unfolding capture_write_all
  capture_write_all-Holds c before [] q = subst (Holds c) (sym (append-nil before)) q
  capture_write_all-Holds c before (r ∷ rs) q =
      subst (Holds (capture_write_all to_string (capture_write to_string c r) rs))
        (append_assoc before (r ∷ []) rs)
        (capture_write_all-Holds (capture_write to_string c r) (snoc before r) rs
          (capture_write-Holds c before r q))

  -- A new capture that was handed records has flushed the lines of all of them, in order, but for
  -- fewer than 64 at the end, which are pending.
  pub create-Holds : (rs : List EmissionRecord) → Holds (capture_write_all to_string create rs) rs
  unfolding create
  create-Holds rs =
      capture_write_all-Holds create [] rs
        (record { lines = refl; count = refl; few = omega arith })

  capture_write_all-snoc :
      (c : CaptureSink) (rs : List EmissionRecord) (r : EmissionRecord)
      → capture_write_all to_string c (snoc rs r)
        ≡ capture_write to_string (capture_write_all to_string c rs) r
  unfolding capture_write_all
  capture_write_all-snoc c [] r = refl
  capture_write_all-snoc c (x ∷ rs) r = capture_write_all-snoc (capture_write to_string c x) rs r

  -- When a turn's trailer has been written behind any records, the lines of all of them are flushed.
  pub capture_write_all-boundary :
      (rs : List EmissionRecord) (r : EmissionRecord)
      → is_boundary r ≡ true
      → (capture_write_all to_string create (snoc rs r)).flushed ≡ map line (snoc rs r)
  unfolding capture_write
  capture_write_all-boundary rs r b =
      let c = capture_write_all to_string create rs in
      ap (λ c. c.flushed) (capture_write_all-snoc create rs r)
      ∙ rw b (snoc-lines c rs r (create-Holds rs))
