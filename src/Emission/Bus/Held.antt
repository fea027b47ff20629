-- ===== src/Emission/Bus/Held.antt =====
-- The records that the bus holds or has written, and how each step changes them.
use beta_boot_git_ops.Emission.{EmissionRecord, scheduler, capture_drop, SchedNote, emit_latency_us}
use beta_boot_git_ops.Emission.Bus.{Bus, is_full, try_send, receive, report}
use beta_boot_git_ops.Base.{
  ℕ, ◌≤◌, ◌≡◌, refl, sym, ap, ◌∙◌, ◌⊎◌, inl, inr, Bool, true, false, List, [], ◌∷◌, ◌++◌,
  append-nil, append_assoc, arith, ◌==◌, if◌then◌else◌, Bool-cases, length, snoc, length-snoc,
}

abbrev pub is_latency : SchedNote → Bool
is_latency (emit_latency_us us) = true
is_latency _ = false

-- The records that the bus makes itself.
unfoldable pub is_own : EmissionRecord → Bool
is_own (capture_drop n) = true
is_own (scheduler s a note) = is_latency note
is_own _ = false

-- The others.
unfoldable pub foreign : List EmissionRecord → List EmissionRecord
foreign [] = []
foreign (r ∷ rs) = if is_own r then foreign rs else r ∷ foreign rs

pub foreign-append : (rs ss : List EmissionRecord) → foreign (rs ++ ss) ≡ foreign rs ++ foreign ss
unfolding foreign
foreign-append [] ss = refl
foreign-append (r ∷ rs) ss = ground (arith, foreign-append rs ss)

-- What has been written and what is queued, without the bus's own records.
abbrev pub held : Bus → List EmissionRecord
held b = foreign (b.written ++ b.queue)

pub held-try_send :
    (b : Bus) (r : EmissionRecord)
    → held (try_send b r) ≡ (if is_full b then held b else held b ++ foreign (r ∷ []))
unfolding try_send
held-try_send b r = elim (Bool-cases (is_full b)) [
  | inl full ↦ rw (full, try_send)
  | inr room ↦
      rw (room, try_send)
        (ap foreign (sym (append_assoc b.written b.queue (r ∷ [])))
          ∙ foreign-append (b.written ++ b.queue) (r ∷ []))
]

pub try_send_bounded :
    (b : Bus) (r : EmissionRecord)
    → length b.queue ≤ b.capacity
    → length (try_send b r).queue ≤ b.capacity
unfolding try_send
try_send_bounded b r h = ground (arith, length-snoc b.queue r)

pub foreign_one : (r : EmissionRecord) → is_own r ≡ false → foreign (r ∷ []) ≡ r ∷ []
unfolding foreign
foreign_one r h = rw h

pub foreign_own : (r : EmissionRecord) → is_own r ≡ true → foreign (r ∷ []) ≡ []
unfolding foreign
foreign_own r h = rw h

pub held-try_send_own :
    (b : Bus) (r : EmissionRecord) → is_own r ≡ true → held (try_send b r) ≡ held b
held-try_send_own b r h = elim (Bool-cases (is_full b)) [
  | inl full ↦ held-try_send b r ∙ rw full
  | inr room ↦ held-try_send b r ∙ rw (room, foreign_own r h) (append-nil (held b))
]

pub receive_one :
    (b : Bus) (r : EmissionRecord) (rest : List EmissionRecord)
    → b.queue ≡ r ∷ rest
    → b.reporting ≡ false
    → receive b ≡ record b { queue = rest; written = snoc b.written r; reporting = true }
unfolding receive
receive_one b r rest e idle = ground arith

pub receive_none : (b : Bus) → (b.queue ≡ []) ⊎ (b.reporting ≡ true) → receive b ≡ b
unfolding receive
receive_none b h = ground arith

pub foreign_drop_report :
    (ws qs : List EmissionRecord) (n : ℕ)
    → foreign (snoc ws (capture_drop n) ++ qs) ≡ foreign (ws ++ qs)
foreign_drop_report ws qs n =
    rw append_assoc (
      foreign-append ws (capture_drop n ∷ qs) ∙ unfold foreign is_own in sym (foreign-append ws qs))

pub held-report : (b : Bus) → held (report b) ≡ held b
unfolding report
held-report b = elim (Bool-cases b.reporting) [
  | inl due ↦ elim (Bool-cases (b.dropped == b.last_drop_report)) [
    | inl same ↦ rw (due, same, report)
    | inr more ↦ rw (due, more, report) (foreign_drop_report b.written b.queue b.dropped)
  ]
  | inr idle ↦ rw (idle, report)
]
