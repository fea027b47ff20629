-- ===== src/Machine/Verdict.antt =====
-- What the machine decides, said of the events alone.
use beta_boot_git_ops.Driver.{
  DriverEvent, text_delta, finish, usage, done, Usage, ChatOutcome, DriverFault, truncated, aborted,
  empty_stream,
}
use beta_boot_git_ops.Machine.{
  EndCause, stream_ended, handler_abort, StreamMachine, new, feed, feed_all, finalize, resolve,
}
use beta_boot_git_ops.Base.{
  ◌≡◌, refl, sym, ap, ◌∙◌, Option, none, some, List, [], ◌∷◌, ◌++◌, append-nil, append_assoc, arith,
  length, or_else, Result, ok, err, Text,
}

-- The text of the deltas, joined.
abbrev pub text_of : List DriverEvent → Text
text_of [] = []
text_of (text_delta t ∷ es) = t ++ text_of es
text_of (finish r ∷ es) = text_of es
text_of (usage p c t ∷ es) = text_of es
text_of (done ∷ es) = text_of es

abbrev pub first_finish : List DriverEvent → Option Text
first_finish [] = none
first_finish (text_delta t ∷ es) = first_finish es
first_finish (finish r ∷ es) = some r
first_finish (usage p c t ∷ es) = first_finish es
first_finish (done ∷ es) = first_finish es

abbrev pub last_usage : List DriverEvent → Option Usage
last_usage [] = none
last_usage (text_delta t ∷ es) = last_usage es
last_usage (finish r ∷ es) = last_usage es
last_usage (usage p c t ∷ es) = or_else (last_usage es) (some (p, c, t))
last_usage (done ∷ es) = last_usage es

-- What a call that brought this text, finish reason and usage should end in.
abbrev pub verdict : EndCause → Text → Option Text → Option Usage → Result ChatOutcome DriverFault
verdict handler_abort t _ _ = err (aborted (length t))
verdict stream_ended t (some r) u = ok (record { content = t; finish_reason = r; usage = u })
verdict stream_ended [] none u = err empty_stream
verdict stream_ended (c ∷ t) none u = err (truncated (length (c ∷ t)))

-- One event, seen on each field.
feed-content :
    (m : StreamMachine) (e : DriverEvent) → (feed m e).content ≡ m.content ++ text_of (e ∷ [])
unfolding feed
feed-content m (text_delta t) = rw append-nil
feed-content m e = ground (arith, append-nil m.content)

feed-finish_reason :
    (m : StreamMachine) (e : DriverEvent)
    → (feed m e).finish_reason ≡ or_else m.finish_reason (first_finish (e ∷ []))
unfolding feed
feed-finish_reason m (text_delta t) = ground arith
feed-finish_reason m e = ground arith

feed-usage :
    (m : StreamMachine) (e : DriverEvent) → (feed m e).usage ≡ or_else (last_usage (e ∷ [])) m.usage
unfolding feed
feed-usage m (text_delta t) = ground arith
feed-usage m e = ground arith

pub text_of-append : (es fs : List DriverEvent) → text_of (es ++ fs) ≡ text_of es ++ text_of fs
text_of-append [] fs = refl
text_of-append (text_delta t ∷ es) fs = simp (text_of-append es fs, append_assoc)
text_of-append (finish r ∷ es) fs = text_of-append es fs
text_of-append (usage p c t ∷ es) fs = text_of-append es fs
text_of-append (done ∷ es) fs = text_of-append es fs

first_finish-cons :
    (e : DriverEvent) (es : List DriverEvent)
    → first_finish (e ∷ es) ≡ or_else (first_finish (e ∷ [])) (first_finish es)
first_finish-cons (text_delta t) es = refl
first_finish-cons e es = refl

last_usage-cons :
    (e : DriverEvent) (es : List DriverEvent)
    → last_usage (e ∷ es) ≡ or_else (last_usage es) (last_usage (e ∷ []))
last_usage-cons (text_delta t) es = ground arith
last_usage-cons e es = ground arith

or_else_assoc {ℓ} :
    {A : Type ℓ} (a b c : Option A) → or_else (or_else a b) c ≡ or_else a (or_else b c)
or_else_assoc none b c = refl
or_else_assoc (some x) b c = refl

pub feed_all-content :
    (m : StreamMachine) (es : List DriverEvent) → (feed_all m es).content ≡ m.content ++ text_of es
unfolding feed_all
feed_all-content m [] = sym (append-nil m.content)
feed_all-content m (e ∷ es) =
    feed_all-content (feed m e) es
    ∙ rw (feed-content m e, append_assoc) (ap (◌++◌ m.content) (sym (text_of-append (e ∷ []) es)))

pub feed_all-finish_reason :
    (m : StreamMachine) (es : List DriverEvent)
    → (feed_all m es).finish_reason ≡ or_else m.finish_reason (first_finish es)
unfolding feed_all
feed_all-finish_reason m [] = ground arith
feed_all-finish_reason m (e ∷ es) =
    feed_all-finish_reason (feed m e) es
    ∙ rw (feed-finish_reason m e, or_else_assoc)
        (ap (or_else m.finish_reason) (sym (first_finish-cons e es)))

pub feed_all-usage :
    (m : StreamMachine) (es : List DriverEvent)
    → (feed_all m es).usage ≡ or_else (last_usage es) m.usage
unfolding feed_all
feed_all-usage m [] = refl
feed_all-usage m (e ∷ es) =
    feed_all-usage (feed m e) es
    ∙ rw (feed-usage m e, ← or_else_assoc)
        (ap (λ u. or_else u m.usage) (sym (last_usage-cons e es)))

or_else-none {ℓ} : {A : Type ℓ} (a : Option A) → or_else a none ≡ a
or_else-none none = refl
or_else-none (some x) = refl

resolve-verdict :
    (m : StreamMachine) (cause : EndCause) (r : Option Text) (c : Text)
    → m.content ≡ c
    → resolve m cause r ≡ verdict cause c r m.usage
unfolding resolve
resolve-verdict m handler_abort r c h = rw h
resolve-verdict m stream_ended (some r) c h = rw h
resolve-verdict m stream_ended none [] h = rw h
resolve-verdict m stream_ended none (x ∷ c) h = rw h (ground arith)

finalize-verdict :
    (m : StreamMachine) (cause : EndCause)
    → finalize m cause ≡ verdict cause m.content m.finish_reason m.usage
unfolding finalize
finalize-verdict m cause = resolve-verdict m cause m.finish_reason m.content refl

-- A call's end is decided by its events alone: by the cause, the joined text of the deltas, the
-- first finish reason and the last usage. Without a finish reason there is no outcome, whatever
-- else came; with one, and no abort, there is.
pub finalize-feed_all :
    (es : List DriverEvent) (cause : EndCause)
    → finalize (feed_all new es) cause
      ≡ verdict cause (text_of es) (first_finish es) (last_usage es)
finalize-feed_all es cause =
    finalize-verdict (feed_all new es) cause
    ∙ rw (feed_all-content, feed_all-finish_reason, feed_all-usage, or_else-none)

-- The stream without its sentinels.
abbrev pub without_done : List DriverEvent → List DriverEvent
without_done [] = []
without_done (text_delta t ∷ es) = text_delta t ∷ without_done es
without_done (finish r ∷ es) = finish r ∷ without_done es
without_done (usage p c t ∷ es) = usage p c t ∷ without_done es
without_done (done ∷ es) = without_done es

text_of-without_done : (es : List DriverEvent) → text_of (without_done es) ≡ text_of es
text_of-without_done [] = refl
text_of-without_done (text_delta t ∷ es) = ap (◌++◌ t) (text_of-without_done es)
text_of-without_done (finish r ∷ es) = text_of-without_done es
text_of-without_done (usage p c t ∷ es) = text_of-without_done es
text_of-without_done (done ∷ es) = text_of-without_done es

first_finish-without_done :
    (es : List DriverEvent) → first_finish (without_done es) ≡ first_finish es
first_finish-without_done [] = refl
first_finish-without_done (text_delta t ∷ es) = first_finish-without_done es
first_finish-without_done (finish r ∷ es) = refl
first_finish-without_done (usage p c t ∷ es) = first_finish-without_done es
first_finish-without_done (done ∷ es) = first_finish-without_done es

last_usage-without_done : (es : List DriverEvent) → last_usage (without_done es) ≡ last_usage es
last_usage-without_done [] = refl
last_usage-without_done (text_delta t ∷ es) = last_usage-without_done es
last_usage-without_done (finish r ∷ es) = last_usage-without_done es
last_usage-without_done (usage p c t ∷ es) =
    ap (λ u. or_else u (some (p, c, t))) (last_usage-without_done es)
last_usage-without_done (done ∷ es) = last_usage-without_done es

-- The sentinel has no authority: with all of them taken out of the stream, or any put in,
-- the verdict is the same.
finalize-without_done :
    (es : List DriverEvent) (cause : EndCause)
    → finalize (feed_all new (without_done es)) cause ≡ finalize (feed_all new es) cause
finalize-without_done es cause =
    finalize-feed_all (without_done es) cause
    ∙ rw (text_of-without_done, first_finish-without_done, last_usage-without_done)
        (sym (finalize-feed_all es cause))
