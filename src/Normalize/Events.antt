-- ===== src/Normalize/Events.antt =====
-- The events of an installment, said of its chunk.
use beta_boot_git_ops.Text.{codes, text_eq, trim, text_eq_iff}
use beta_boot_git_ops.Driver.{DriverEvent, text_delta, finish, usage, done}
use beta_boot_git_ops.Normalize.{
  Choice, TokenUsage, Chunk, SerdeJson, Normalized, done_sentinel, tool_calls_channel, push_channel,
  push_text, push_finish, collect, push_usage, of_chunk, normalize,
}
use beta_boot_git_ops.Base.{
  ℕ, zero, suc, ◌≡◌, refl, sym, ◌∙◌, ◌≢◌, inl, inr, Option, none, some, List, [], ◌∷◌, ◌++◌,
  append-nil, append_assoc, arith, ltb, if◌then◌else◌, Bool-cases, length, Result, ok, err,
  Result-cases, Text,
}

-- A choice's text, if there is some, before its finish reason.
abbrev pub text_events : Option Text → List DriverEvent
text_events none = []
text_events (some []) = []
text_events (some (c ∷ t)) = text_delta (c ∷ t) ∷ []

abbrev pub finish_events : Option Text → List DriverEvent
finish_events none = []
finish_events (some r) = finish r ∷ []

abbrev pub usage_events : Option TokenUsage → List DriverEvent
usage_events none = []
usage_events (some u) = usage u.prompt_tokens u.completion_tokens u.total_tokens ∷ []

module _ {V : Type 0} where
  abbrev pub channels : Option V → List Text
  channels none = []
  channels (some v) = tool_calls_channel ∷ []

  -- Choice after choice.
  abbrev pub choice_events : List (Choice V) → List DriverEvent
  choice_events [] = []
  choice_events (c ∷ cs) =
      text_events c.delta.content ++ (finish_events c.finish_reason ++ choice_events cs)

  abbrev pub choice_channels : List (Choice V) → List Text
  choice_channels [] = []
  choice_channels (c ∷ cs) = channels c.delta.tool_calls ++ choice_channels cs

  push_channel-channels : (o : Option V) (us : List Text) → push_channel o us ≡ us ++ channels o
  unfolding push_channel
  push_channel-channels none us = sym (append-nil us)
  push_channel-channels (some v) us = refl

push_text-text_events :
    (o : Option Text) (es : List DriverEvent) → push_text o es ≡ es ++ text_events o
unfolding push_text
push_text-text_events none es = sym (append-nil es)
push_text-text_events (some []) es = sym (append-nil es)
push_text-text_events (some (c ∷ t)) es = refl

push_finish-finish_events :
    (o : Option Text) (es : List DriverEvent) → push_finish o es ≡ es ++ finish_events o
unfolding push_finish
push_finish-finish_events none es = sym (append-nil es)
push_finish-finish_events (some r) es = refl

push_usage-usage_events :
    (o : Option TokenUsage) (es : List DriverEvent) → push_usage o es ≡ es ++ usage_events o
unfolding push_usage
push_usage-usage_events none es = sym (append-nil es)
push_usage-usage_events (some u) es = refl

collect_lem :
    {V : Type 0} (cs : List (Choice V)) (es : List DriverEvent) (us : List Text)
    → collect cs es us ≡ (es ++ choice_events cs, us ++ choice_channels cs)
unfolding collect
collect_lem [] es us = simp append-nil
collect_lem (c ∷ cs) es us =
    collect_lem cs _ _
    ∙ simp (push_channel-channels, push_text-text_events, push_finish-finish_events, append_assoc)

-- More than one choice is flagged with the number of choices.
abbrev pub several : ℕ → Option ℕ
several zero = none
several (suc zero) = none
several (suc (suc n)) = some (suc (suc n))

several_lem : (n : ℕ) → (if ltb 1 n then some n else none) ≡ several n
several_lem zero = refl
several_lem (suc zero) = refl
several_lem (suc (suc n)) = ground arith

-- What an installment's text should become: four ways, of which the text decides one.
pub data Becomes (j : SerdeJson) (text : Text) : Result Normalized Text → Type 0 where
  sentinel :
      trim text ≡ done_sentinel
      → Becomes j text
          (ok (record { events = done ∷ []; unhandled_channels = []; multiple_choices = none }))
  unparseable :
      (e : Text)
      → trim text ≢ done_sentinel
      → j.from_str text ≡ err e
      → Becomes j text (err (codes "unparseable chunk: " ++ e))
  server_error :
      (c : Chunk j.Value) (v : j.Value)
      → trim text ≢ done_sentinel
      → j.from_str text ≡ ok c
      → c.error ≡ some v
      → Becomes j text (err (codes "server error in stream: " ++ j.show_value v))
  parsed :
      (c : Chunk j.Value)
      → trim text ≢ done_sentinel
      → j.from_str text ≡ ok c
      → c.error ≡ none
      → Becomes j text (
          ok (record {
            events = choice_events c.choices ++ usage_events c.usage;
            unhandled_channels = choice_channels c.choices;
            multiple_choices = several (length c.choices);
          }))

module _ (j : SerdeJson) (text : Text) (not_done : trim text ≢ done_sentinel) where
  of_chunk-Becomes :
      (c : Chunk j.Value) (o : Option j.Value)
      → j.from_str text ≡ ok c
      → c.error ≡ o
      → Becomes j text (of_chunk j c o)
  unfolding of_chunk
  of_chunk-Becomes c (some v) p e = server_error c v not_done p e
  of_chunk-Becomes c none p e =
      rw (collect_lem c.choices [] [], several_lem, push_usage-usage_events) (parsed c not_done p e)

-- The sentinel is recognised before any JSON is read. Else text that is no chunk is an error with
-- the parser's message; a chunk with an error is an error with the server's; and any other chunk
-- gives the events of its choices, in order, with its usage last, one note for each choice with
-- tool calls, and a flag where there are several choices. Nothing is lost but empty texts.
pub normalize-Becomes : (j : SerdeJson) (text : Text) → Becomes j text (normalize j text)
unfolding normalize
normalize-Becomes j text = elim (Bool-cases (text_eq (trim text) done_sentinel)) [
  | inl is_done ↦
      rw (is_done, normalize) (sentinel ((text_eq_iff (trim text) done_sentinel).0 is_done))
  | inr other ↦
      let not_done : trim text ≢ done_sentinel =
        λ e. cc ((text_eq_iff (trim text) done_sentinel).1 e) in
      elim (Result-cases (j.from_str text)) [
        | inl (c, p) ↦ rw (other, p, normalize) (of_chunk-Becomes j text not_done c c.error p refl)
        | inr (e, p) ↦ rw (other, p, normalize) (unparseable e not_done p)
      ]
]
