-- ===== src/Machine/Evidence.antt =====
-- The anomalies that the machine keeps: one for each content event behind the first finish reason.
use beta_boot_git_ops.Driver.{DriverEvent, text_delta, finish, usage, done}
use beta_boot_git_ops.Machine.{StreamMachine, new, late_text, second_finish, feed, feed_all}
use beta_boot_git_ops.Base.{
  ℕ, suc, ◌+◌, ◌≡◌, refl, ◌∙◌, none, some, List, [], ◌∷◌, arith, length, length-snoc, Text,
}

-- What follows the first finish reason.
abbrev pub after_finish : List DriverEvent → List DriverEvent
after_finish [] = []
after_finish (text_delta t ∷ es) = after_finish es
after_finish (finish r ∷ es) = es
after_finish (usage p c t ∷ es) = after_finish es
after_finish (done ∷ es) = after_finish es

-- How many deltas and finish reasons there are.
abbrev pub count_content : List DriverEvent → ℕ
count_content [] = 0
count_content (text_delta t ∷ es) = suc (count_content es)
count_content (finish r ∷ es) = suc (count_content es)
count_content (usage p c t ∷ es) = count_content es
count_content (done ∷ es) = count_content es

feed_completed :
    (m : StreamMachine) (e : DriverEvent) (r : Text)
    → m.finish_reason ≡ some r
    → (length (feed m e).anomalies ≡ length m.anomalies + count_content (e ∷ []))
      × ((feed m e).finish_reason ≡ some r)
unfolding feed
feed_completed m (text_delta t) r h = rw h (ground (arith, length-snoc m.anomalies late_text), refl)
feed_completed m (finish s) r h =
    rw (h, feed) (ground (arith, length-snoc m.anomalies (second_finish s r)), h)
feed_completed m e r h = (ground arith, h)

count_content-cons :
    (e : DriverEvent) (es : List DriverEvent)
    → count_content (e ∷ es) ≡ count_content (e ∷ []) + count_content es
count_content-cons (text_delta t) es = omega arith
count_content-cons e es = omega arith

feed_all_completed :
    (es : List DriverEvent) (m : StreamMachine) (r : Text)
    → m.finish_reason ≡ some r
    → length (feed_all m es).anomalies ≡ length m.anomalies + count_content es
unfolding feed_all
feed_all_completed [] m r h = omega arith
feed_all_completed (e ∷ es) m r h =
    let (grown, kept) = feed_completed m e r h in
    omega (arith, grown, feed_all_completed es (feed m e) r kept, count_content-cons e es)

feed_pending :
    (m : StreamMachine) (e : DriverEvent)
    → m.finish_reason ≡ none
    → (feed m e).anomalies ≡ m.anomalies
unfolding feed
feed_pending m (text_delta t) h = rw h
feed_pending m (finish r) h = rw (h, feed)
feed_pending m e h = refl

feed_all_pending :
    (es : List DriverEvent) (m : StreamMachine)
    → m.finish_reason ≡ none
    → length (feed_all m es).anomalies ≡ length m.anomalies + count_content (after_finish es)
unfolding feed_all feed
feed_all_pending [] m h = omega arith
feed_all_pending (text_delta t ∷ es) m h =
    feed_all_pending es (feed m (text_delta t)) h ∙ rw (feed_pending m (text_delta t) h)
feed_all_pending (finish r ∷ es) m h =
    feed_all_completed es (feed m (finish r)) r (rw (h, feed)) ∙ rw (feed_pending m (finish r) h)
feed_all_pending (usage p c t ∷ es) m h = feed_all_pending es (feed m (usage p c t)) h
feed_all_pending (done ∷ es) m h = feed_all_pending es (feed m done) h

-- The machine keeps one note for each delta and each finish reason that follows the first finish
-- reason, and no other.
feed_all-anomalies :
    (es : List DriverEvent) → length (feed_all new es).anomalies ≡ count_content (after_finish es)
feed_all-anomalies es = omega (arith, feed_all_pending es new refl)
