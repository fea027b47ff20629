-- ===== src/Sse/Block.antt =====
-- One frame's event, and what the end of the stream does with the bytes that are left.
use beta_boot_git_ops.Text.{starts_with, join}
use beta_boot_git_ops.Text.Lines.{lines}
use beta_boot_git_ops.Text.Utf8.{from_utf8, encode}
use beta_boot_git_ops.Text.Utf8.Strict.{from_utf8-encode}
use beta_boot_git_ops.Sse.Fields.{Values, data_values-Values}
use beta_boot_git_ops.Sse.{
  SsePayload, comment, data_of, undecodable, SseEvent, SseParser, data_values, of_values, of_text,
  parse_block, residue_of, finish, finish_with_residue,
}
use beta_boot_git_ops.Base.{
  ◌≡◌, refl, ◌≢◌, ◌⊎◌, inl, inr, true, false, Option, none, some, List, [], ◌∷◌, arith, Bool-cases,
  length, is_empty, ok, Result-cases, Text, Bytes,
}

-- What a payload says of the frame's bytes.
abbrev pub Carries : Bytes → SsePayload → Type 0
Carries bytes (comment t) = (encode t ≡ bytes) × (starts_with b':' t ≡ true)
Carries bytes (data_of d) =
    (t : Text) × (v : Text) × (vs : List Text) × (encode t ≡ bytes)
    × Values (lines t) (v ∷ vs)
    × (d ≡ join (b'\n' ∷ []) (v ∷ vs))
Carries bytes (undecodable raw message) = (raw ≡ bytes) × ((t : Text) → from_utf8 bytes ≢ ok t)

-- A frame without an event is a text that is no comment and has no `data` field.
abbrev pub Accounts : Bytes → Option SseEvent → Type 0
Accounts bytes none =
    (t : Text) × (encode t ≡ bytes) × (starts_with b':' t ≡ false) × Values (lines t) []
Accounts bytes (some ev) = (ev.raw_byte_len ≡ length bytes) × Carries bytes ev.payload

of_values-Accounts :
    (bytes : Bytes) (t : Text) (vs : List Text)
    → encode t ≡ bytes
    → starts_with b':' t ≡ false
    → Values (lines t) vs
    → Accounts bytes (of_values bytes vs)
unfolding of_values
of_values-Accounts bytes t [] e n h = (t, e, n, h)
of_values-Accounts bytes t (v ∷ vs) e n h = (refl, (t, v, vs, e, h, refl))

of_text-Accounts : (bytes : Bytes) (t : Text) → encode t ≡ bytes → Accounts bytes (of_text bytes t)
unfolding of_text
of_text-Accounts bytes t e = elim (Bool-cases (starts_with b':' t)) [
  | inl yes_comment ↦ rw (yes_comment, of_text) (refl, (e, yes_comment))
  | inr no_comment ↦
      rw (no_comment, of_text)
        (of_values-Accounts bytes t (data_values (lines t)) e no_comment
          (data_values-Values (lines t)))
]

-- A frame is decoded strictly. A comment or a data event comes from a text whose bytes are exactly
-- the frame's: a comment from one that begins with a colon, a data event from one with `data`
-- fields among its lines, whose values it has, joined by newlines; a line is such a field that is the
-- name alone, or the name, a colon and the value behind one space or none. A frame that is no UTF-8 is
-- passed on whole; and nothing is dropped but texts with no `data` field that are no comment.
pub parse_block-Accounts : (bytes : Bytes) → Accounts bytes (parse_block bytes)
unfolding parse_block
parse_block-Accounts bytes = elim (Result-cases (from_utf8 bytes)) [
  | inl (t, e) ↦ rw (e, parse_block) (of_text-Accounts bytes t (from_utf8-encode bytes e))
  | inr (e, f) ↦ rw (f, parse_block) (refl, (refl, λ t g. cc))
]

-- What becomes of the bytes left at the end of the stream.
abbrev pub Settles : Bytes → List SseEvent × Bytes → Type 0
Settles buf (evs, residue) =
    ((buf ≡ []) × (evs ≡ []) × (residue ≡ []))
    ⊎ ((ev : SseEvent) × (evs ≡ ev ∷ []) × (residue ≡ []) × Accounts buf (some ev))
    ⊎ ((evs ≡ []) × (residue ≡ buf) × Accounts buf none)

residue_of-Settles :
    (buf : Bytes) (r : Option SseEvent) → Accounts buf r → Settles buf (residue_of buf r)
unfolding residue_of
residue_of-Settles buf none a = inr (inr (refl, refl, a))
residue_of-Settles buf (some ev) a = inr (inl (ev, refl, refl, a))

-- At the end of the stream the bytes that are left become one event that accounts for all of
-- them, or are handed on whole as residue, where they are a text with no `data` field; with no
-- bytes left there is neither. `finish` finds the same events.
pub finish_with_residue-Settles :
    (p : SseParser) → Settles p.buf (finish_with_residue p) × (finish p ≡ (finish_with_residue p).0)
unfolding finish finish_with_residue
finish_with_residue-Settles p = elim (Bool-cases (is_empty p.buf)) [
  | inl none_left ↦
      rw (none_left, finish_with_residue, finish) (inl (ground arith, refl, refl), refl)
  | inr left ↦
      rw (left, finish_with_residue, finish)
        (residue_of-Settles p.buf (parse_block p.buf) (parse_block-Accounts p.buf), ground arith)
]
