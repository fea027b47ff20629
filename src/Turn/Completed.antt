-- ===== src/Turn/Completed.antt =====
-- How `execute_turn` comes out.
use beta_boot_git_ops.Attempt.{Reply}
use beta_boot_git_ops.Attempt.Records.{ends_in, events_in, events_in-append}
use beta_boot_git_ops.Config.{OpenAiConfig}
use beta_boot_git_ops.Driver.{ChatOutcome}
use beta_boot_git_ops.Emission.{StreamId, EmissionRecord, ledger, retry_allowance_granted}
use beta_boot_git_ops.Handler.{EventHandler, new_state, emit, begin_stream}
use beta_boot_git_ops.Normalize.{SerdeJson}
use beta_boot_git_ops.Throughput.{Floats}
use beta_boot_git_ops.Turn.{TurnVerdict, Turning, turn_loop, trailer, with_trailer, execute_turn}
use beta_boot_git_ops.Turn.Loop.{turn_loop-Turned}
use beta_boot_git_ops.Turn.Verdicts.{
  ends_of, ends_of-emit, Ended, Told, Told-one, Told-trans, Evidence, Justified, Turned,
}
use beta_boot_git_ops.Base.{
  ℕ, suc, ◌+◌, ◌^◌, ◌<◌, ◌≡◌, refl, sym, ap, ◌∙◌, subst, Option, some, List, [], ◌∷◌, ◌++◌,
  append_assoc, arith, snoc, unwrap_or,
}

-- How a turn comes out: a verdict, with the trailer as the last record.
pub record Completed (id : StreamId) (h : EventHandler) (out : Option (TurnVerdict × EventHandler))
    : Type 0 where
  pub verdict : TurnVerdict
  pub last : Turning
  pub result : out ≡ some (verdict, emit last.handler (trailer id verdict last))
  pub spent : last.st.attempt + last.remaining_allowance ≡ suc h.retry_allowance_per_turn
  pub began : 0 < last.st.attempt
  pub same_stream : last.st.stream_id ≡ id
  pub told : Told id h last.handler
  pub justified : Justified verdict last
  pub ends : Ended (ends_of h) 0 verdict last

-- The same, where what the turn returned is at hand.
pub record Returned (id : StreamId) (h : EventHandler) (v : TurnVerdict) (h' : EventHandler)
    : Type 0 where
  pub last : Turning
  pub emitted : h' ≡ emit last.handler (trailer id v last)
  pub spent : last.st.attempt + last.remaining_allowance ≡ suc h.retry_allowance_per_turn
  pub began : 0 < last.st.attempt
  pub same_stream : last.st.stream_id ≡ id
  pub told : Told id h last.handler
  pub justified : Justified v last
  pub ends : Ended (ends_of h) 0 v last

some-verdict :
    {v v' : TurnVerdict} {h h' : EventHandler}
    → Path (Option (TurnVerdict × EventHandler)) (some (v, h)) (some (v', h'))
    → v ≡ v'
some-verdict {v} {h = h} e = ap (λ x. (unwrap_or {A = TurnVerdict × EventHandler} x (v, h)).0) e

some-handler :
    {v v' : TurnVerdict} {h h' : EventHandler}
    → Path (Option (TurnVerdict × EventHandler)) (some (v, h)) (some (v', h'))
    → h ≡ h'
some-handler {v} {h = h} e = ap (λ x. (unwrap_or {A = TurnVerdict × EventHandler} x (v, h)).1) e

pub Evidence-snoc :
    {o : ChatOutcome} {s a : ℕ} {bus : List EmissionRecord} (r : EmissionRecord)
    → events_in (r ∷ []) ≡ []
    → Evidence o s a bus
    → Evidence o s a (snoc bus r)
Evidence-snoc r e q = record {
  before = q.before;
  records = q.records;
  behind = snoc q.behind r;
  parts = rw q.parts (
      append_assoc q.before (q.records ++ q.behind) (r ∷ [])
      ∙ ap (◌++◌ q.before) (append_assoc q.records q.behind (r ∷ [])));
  labelled = q.labelled;
  cause = q.cause;
  one_end = q.one_end;
  not_aborted = q.not_aborted;
  content = q.content;
  finish_reason = q.finish_reason;
  usage = q.usage;
  silence = events_in-append q.behind (r ∷ []) ∙ rw (q.silence, e) refl;
}

module _ (j : SerdeJson) (fl : Floats) (cfg : OpenAiConfig) where
  pub execute_turn-Completed :
      (id : StreamId) (replies : ℕ → Reply) (h : EventHandler)
      → suc h.retry_allowance_per_turn < 2 ^ 32
      → h.send_buckets < 2 ^ 32
      → Completed id h (execute_turn j fl cfg id replies h)
  unfolding execute_turn begin_stream new_state with_trailer ends_in
  execute_turn-Completed id replies h small buckets =
      let (st, h') = begin_stream h id in
      let t : Turning = record {
        st = st;
        handler = h';
        select_polls = 0;
        remaining_allowance = h.retry_allowance_per_turn;
      } in
      let q : Turned t (turn_loop j fl cfg (suc h.retry_allowance_per_turn) 0 replies t) =
        turn_loop-Turned j fl cfg (suc h.retry_allowance_per_turn) 0 replies t (omega arith)
          (record { word = omega arith; attempts = omega (arith, small); buckets = buckets }) in
      record {
        verdict = q.verdict;
        last = q.last;
        result = ap (with_trailer j fl cfg id) q.result;
        spent = omega (arith, q.spent);
        began = omega (arith, q.began);
        same_stream = q.same_stream;
        told =
            Told-trans
              (Told-one id h (ledger id 0 (retry_allowance_granted h.retry_allowance_per_turn))
                (0, (refl, refl)))
              q.told;
        justified = q.justified;
        ends =
            subst (λ n. Ended n 0 q.verdict q.last)
              (ends_of-emit h (ledger id 0 (retry_allowance_granted h.retry_allowance_per_turn))
                refl)
              q.ends;
      }

  -- What is known of a turn that returned this.
  pub execute_turn-Returned :
      (id : StreamId) (replies : ℕ → Reply) (h h' : EventHandler) (v : TurnVerdict)
      → suc h.retry_allowance_per_turn < 2 ^ 32
      → h.send_buckets < 2 ^ 32
      → execute_turn j fl cfg id replies h ≡ some (v, h')
      → Returned id h v h'
  execute_turn-Returned id replies h h' v small buckets e =
      let q = execute_turn-Completed id replies h small buckets in
      let h'' = emit q.last.handler (trailer id q.verdict q.last) in
      let same : Path (Option (TurnVerdict × EventHandler)) (some (q.verdict, h'')) (some (v, h')) =
        sym q.result ∙ e in
      let verdicts : q.verdict ≡ v = some-verdict same in
      let handlers : h'' ≡ h' = some-handler same in
      record {
        last = q.last;
        emitted = sym handlers ∙ ap (λ x. emit q.last.handler (trailer id x q.last)) verdicts;
        spent = q.spent;
        began = q.began;
        same_stream = q.same_stream;
        told = q.told;
        justified = subst (λ x. Justified x q.last) verdicts q.justified;
        ends = subst (λ x. Ended (ends_of h) 0 x q.last) verdicts q.ends;
      }
