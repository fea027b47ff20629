-- ===== src/Chat/History.antt =====
-- The history after a line: only committed turns are kept.
use beta_boot_git_ops.Chat.OneTurn.{
  FitsHandler, next_id, FitsHandler-Same, PrintedLast, Shown, turn_on-TurnedOn,
}
use beta_boot_git_ops.Chat.{
  Network, prints, complains, re_issuing, Session, Reaction, goes_on, panics, no_alternative, pop,
  conclude_turn, turn_on, fail_over, and_then, say,
}
use beta_boot_git_ops.Config.{OpenAiConfig}
use beta_boot_git_ops.Request.{Message, message}
use beta_boot_git_ops.Normalize.{SerdeJson}
use beta_boot_git_ops.Text.{codes}
use beta_boot_git_ops.Throughput.{Floats}
use beta_boot_git_ops.Turn.{TurnVerdict, committed, failed_over, failed}
use beta_boot_git_ops.Base.{
  ◌≡◌, refl, sym, ap, ◌∙◌, subst, Option, none, some, List, [], ◌∷◌, ◌++◌, append_assoc, snoc, Text,
}

pop-snoc : (ms : List Message) (m : Message) → pop (snoc ms m) ≡ ms
unfolding pop
pop-snoc [] m = refl
pop-snoc (x ∷ []) m = refl
pop-snoc (x ∷ y ∷ ms) m = ap (◌∷◌ x) (pop-snoc (y ∷ ms) m)

-- What the verdict leads to: the history keeps the line with the outcome's answer, which is what the
-- terminal has printed last, just where an outcome is committed; it is as it was where the turn
-- failed; and `unreachable!` is reached just where the turn failed over.
abbrev pub Concluded : Text → Session → TurnVerdict → Reaction → Session → Type 0
Concluded line s (committed o) reaction s' =
    (reaction ≡ goes_on)
    × (s'.history
        ≡ s.history ++ (message (codes "user") line ∷ message (codes "assistant") o.content ∷ []))
    × PrintedLast o.content s'
Concluded line s (failed f) reaction s' = (reaction ≡ goes_on) × (s'.history ≡ s.history)
Concluded line s (failed_over n) reaction s' = reaction ≡ panics

conclude_turn-Concluded :
    (line : Text) (s s' : Session) (w : TurnVerdict)
    → s'.history ≡ snoc s.history (message (codes "user") line)
    → Shown w s'
    → let x = conclude_turn w s' in Concluded line s w x.0 x.1
unfolding conclude_turn
conclude_turn-Concluded line s s' (committed o) h shown = (
  refl,
  ap (λ ms. snoc ms (message (codes "assistant") o.content)) h
      ∙ append_assoc s.history (message (codes "user") line ∷ [])
          (message (codes "assistant") o.content ∷ []),
  shown,
)
conclude_turn-Concluded line s s' (failed f) h shown =
    (refl, ap pop h ∙ pop-snoc s.history (message (codes "user") line))
conclude_turn-Concluded line s s' (failed_over n) h shown = refl

conclude_turn-handler :
    (w : TurnVerdict) (s : Session)
    → ((conclude_turn w s).1.handler ≡ s.handler) × ((conclude_turn w s).1.stream_id ≡ s.stream_id)
unfolding conclude_turn
conclude_turn-handler (committed o) s = (refl, refl)
conclude_turn-handler (failed f) s = (refl, refl)
conclude_turn-handler (failed_over n) s = (refl, refl)

module _ (j : SerdeJson) (fl : Floats) (network : Network) where
  -- How the first turn's verdict comes to the line's: as it is, unless the turn failed over, and
  -- then by another turn on the other endpoint, under the next number, or as a fault where there is
  -- no other endpoint.
  abbrev pub Decided : Option OpenAiConfig → TurnVerdict → Session → TurnVerdict → Session → Type 0
  Decided failover (committed o) s1 w s' = (w ≡ committed o) × (s'.stream_id ≡ s1.stream_id)
  Decided failover (failed f) s1 w s' = (w ≡ failed f) × (s'.stream_id ≡ s1.stream_id)
  Decided none (failed_over n) s1 w s' = (w ≡ failed no_alternative) × (s'.stream_id ≡ s1.stream_id)
  Decided (some cfg) (failed_over n) s1 w s' =
      (s2 : Session) × (turn_on j fl network cfg
          (prints (codes "ai> ") (complains (re_issuing n cfg) s1))
        ≡ some (w, s2))
      × (s'.handler ≡ s2.handler)
      × (s'.stream_id ≡ next_id s1)

  -- The reaction to a line that is said: the verdict of the turn on the primary endpoint, what the
  -- line's verdict is by it, and what that leads to. The counts of the handler still fit.
  pub record Said (primary : OpenAiConfig) (failover : Option OpenAiConfig) (line : Text)
      (s : Session) (out : Option (Reaction × Session)) : Type 0 where
    pub reaction : Reaction
    pub after : Session
    pub result : out ≡ some (reaction, after)
    pub first : TurnVerdict
    pub between : Session
    pub asked :
        turn_on j fl network primary (
          prints
            (codes "ai> ")
            (record s { history = snoc s.history (message (codes "user") line) }))
        ≡ some (first, between)
    pub first_id : between.stream_id ≡ next_id s
    pub verdict : TurnVerdict
    pub decided : Decided failover first between verdict after
    pub concluded : Concluded line s verdict reaction after
    pub fits : FitsHandler after.handler

  said :
      (primary : OpenAiConfig) (failover : Option OpenAiConfig) (line : Text) (s s1 s' : Session)
      (v w : TurnVerdict)
      → turn_on j fl network primary (
          prints
            (codes "ai> ")
            (record s { history = snoc s.history (message (codes "user") line) }))
        ≡ some (v, s1)
      → s1.stream_id ≡ next_id s
      → s'.history ≡ snoc s.history (message (codes "user") line)
      → Shown w s'
      → FitsHandler s'.handler
      → Decided failover v s1 w (conclude_turn w s').1
      → Said primary failover line s (some (conclude_turn w s'))
  said primary failover line s s1 s' v w e i h shown fits decided = record {
    reaction = (conclude_turn w s').0;
    after = (conclude_turn w s').1;
    result = refl;
    first = v;
    between = s1;
    asked = e;
    first_id = i;
    verdict = w;
    decided = decided;
    concluded = conclude_turn-Concluded line s s' w h shown;
    fits = subst FitsHandler (sym (conclude_turn-handler w s').0) fits;
  }

  module _ (primary : OpenAiConfig) (line : Text) (s s1 : Session) where
    fail_over-Said :
        (failover : Option OpenAiConfig) (v : TurnVerdict)
        → turn_on j fl network primary (
            prints
              (codes "ai> ")
              (record s { history = snoc s.history (message (codes "user") line) }))
          ≡ some (v, s1)
        → s1.history ≡ snoc s.history (message (codes "user") line)
        → Shown v s1
        → s1.stream_id ≡ next_id s
        → FitsHandler s1.handler
        → Said primary failover line s
            (and_then (fail_over j fl network failover v s1) (λ w s2. some (conclude_turn w s2)))
    unfolding fail_over
    fail_over-Said failover (committed o) e h shown i fits =
        said primary failover line s s1 s1 (committed o) (committed o) e i h shown fits
          (refl, (conclude_turn-handler (committed o) s1).1)
    fail_over-Said failover (failed f) e h shown i fits =
        said primary failover line s s1 s1 (failed f) (failed f) e i h tt fits
          (refl, (conclude_turn-handler (failed f) s1).1)
    fail_over-Said none (failed_over n) e h shown i fits =
        said primary none line s s1 s1 (failed_over n) (failed no_alternative) e i h tt fits
          (refl, (conclude_turn-handler (failed no_alternative) s1).1)
    fail_over-Said (some cfg) (failed_over n) e h shown i fits =
        let told = prints (codes "ai> ") (complains (re_issuing n cfg) s1) in
        let q = turn_on-TurnedOn j fl network cfg told fits in
        let (same_handler, same_id) = conclude_turn-handler q.verdict q.after in
        subst (λ o. Said primary (some cfg) line s (and_then o (λ w s2. some (conclude_turn w s2))))
          (sym q.result)
          (said primary (some cfg) line s s1 q.after (failed_over n) q.verdict e i
            (q.same.history ∙ h) q.shown (FitsHandler-Same told q.after q.same fits)
            (q.after, q.result, same_handler, same_id ∙ q.id))

  -- A line that is said gets a reaction, whatever the endpoints answer. The turn on the primary
  -- endpoint, under the next number, with the line behind the history, has a verdict. The line's
  -- verdict is that one, unless the turn failed over; then it is that of a turn on the other
  -- endpoint, under the number behind, or a fault where there is no other endpoint. Where the line's
  -- verdict is an outcome, the history is as before with the line and the outcome's answer behind it,
  -- which is what a terminal sink that is handed all records has printed last; where it is a fault,
  -- the history is as before; and `unreachable!` is reached where it fails over once more, and
  -- nowhere else. The clock is one without a last instant. The allowance, one more, and the buckets fit 32 bits, and do so afterwards.
  pub say-Said :
      (primary : OpenAiConfig) (failover : Option OpenAiConfig) (line : Text) (s : Session)
      → FitsHandler s.handler
      → Said primary failover line s (say j fl network primary failover line s)
  unfolding say
  say-Said primary failover line s fits =
      let asked : Session = record s { history = snoc s.history (message (codes "user") line) } in
      let prompted = prints (codes "ai> ") asked in
      let q = turn_on-TurnedOn j fl network primary prompted fits in
      subst
        (λ o. Said primary failover line s (
          and_then o (λ v s1.
            and_then (fail_over j fl network failover v s1) (λ w s2. some (conclude_turn w s2)))))
        (sym q.result)
        (fail_over-Said primary line s q.after failover q.verdict q.result q.same.history q.shown
          q.id (FitsHandler-Same prompted q.after q.same fits))
