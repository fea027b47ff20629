-- ===== src/Sse.antt =====
-- chat2/src/sse.rs: reassembly of server-sent events from the bytes of the network.
pub mod Search
pub mod Frames
pub mod Terminators
pub mod Growth
pub mod Splits
pub mod Leftmost
pub mod Push
pub mod RoundTrip
pub mod Stream
pub mod Fields
pub mod Block
use beta_boot_git_ops.Text.{codes, text_eq, starts_with, split_once, strip_prefix_or_self, join}
use beta_boot_git_ops.Text.Lines.{lines}
use beta_boot_git_ops.Text.Numbers.{decimal}
use beta_boot_git_ops.Text.Utf8.{Utf8Error, from_utf8}
use mathlib.Core.Option
use beta_boot_git_ops.Base.{
  ℕ, zero, suc, ◌+◌, ◌^◌, Bool, ◌||◌, Option, none, some, List, [], ◌∷◌, ◌++◌, map, ltb, leb,
  if◌then◌else◌, length, take, drop, snoc, is_empty, Result, ok, err, Text, Bytes,
}

pub data SsePayload : Type 0 where
  comment : Text → SsePayload
  data_of : Text → SsePayload
  -- The raw bytes, and the decoder's message.
  undecodable : Bytes → Text → SsePayload

pub record SseEvent : Type 0 where
  pub payload : SsePayload
  pub raw_byte_len : ℕ

pub record SseOverflow : Type 0 where
  pub limit_bytes : ℕ

pub record SseParser : Type 0 where
  pub buf : Bytes
  pub limit_bytes : ℕ

-- `1 << 20`.
abbrev pub default_buf_limit : ℕ
default_buf_limit = 2 ^ 20

abbrev pub lf_lf : Bytes
lf_lf = b'\n' ∷ b'\n' ∷ []

abbrev pub crlf_crlf : Bytes
crlf_crlf = b'\r' ∷ b'\n' ∷ b'\r' ∷ b'\n' ∷ []

unfoldable pub windows : ℕ → Bytes → List Bytes
windows n [] = []
windows n (x ∷ xs) =
    let rest = windows n xs in if leb n (length (x ∷ xs)) then take n (x ∷ xs) ∷ rest else []

unfoldable pub position : (Bytes → Bool) → List Bytes → Option ℕ
position p [] = none
position p (w ∷ ws) = let rest = position p ws in if p w then some 0 else Option.map suc rest

unfoldable pub find : Bytes → Bytes → Option ℕ
unfolding windows position text_eq
find hay needle =
    if is_empty needle || ltb (length hay) (length needle)
    then none
    else position (text_eq needle) (windows (length needle) hay)

-- `Utf8Error`'s `Display`.
unfoldable pub show_error : Utf8Error → Text
unfolding decimal
show_error e = elim e.error_len [
  | some n ↦
      codes "invalid utf-8 sequence of "
      ++ (decimal n ++ (codes " bytes from index " ++ decimal e.valid_up_to))
  | none ↦ codes "incomplete utf-8 byte sequence from index " ++ decimal e.valid_up_to
]

-- A line's value, if it is a `data` field.
unfoldable pub data_value : Text → Option Text
unfolding split_once text_eq
data_value line =
    if starts_with b':' line
    then none
    else (let (field, value) = elim (split_once b':' line) as (λ _. Text × Text) [
      | some (f, v) ↦ (f, strip_prefix_or_self b' ' v)
      | none ↦ (line, [])
    ] in
        if text_eq field (codes "data") then some value else none)

abbrev cons_some : Option Text → List Text → List Text
cons_some none vs = vs
cons_some (some v) vs = v ∷ vs

-- The loop over the lines.
unfoldable pub data_values : List Text → List Text
unfolding data_value
data_values [] = []
data_values (line ∷ ls) = cons_some (data_value line) (data_values ls)

abbrev event : SsePayload → Bytes → SseEvent
event p bytes = record { payload = p; raw_byte_len = length bytes }

unfoldable pub of_values : Bytes → List Text → Option SseEvent
unfolding join
of_values bytes [] = none
of_values bytes (v ∷ vs) = some (event (data_of (join (b'\n' ∷ []) (v ∷ vs))) bytes)

unfoldable pub of_text : Bytes → Text → Option SseEvent
unfolding data_values of_values lines
of_text bytes t =
    if starts_with b':' t
    then some (event (comment t) bytes)
    else of_values bytes (data_values (lines t))

unfoldable pub parse_block : Bytes → Option SseEvent
unfolding from_utf8 show_error of_text
parse_block bytes = elim (from_utf8 bytes) [
  | ok t ↦ of_text bytes t
  | err e ↦ some (event (undecodable bytes (show_error e)) bytes)
]

unfoldable pub with_limit : ℕ → SseParser
with_limit n = record { buf = []; limit_bytes = n }

unfoldable pub new : SseParser
unfolding with_limit
new = with_limit default_buf_limit

-- The first terminator: where it starts, and its length.
unfoldable pub first_of_two : Option ℕ → Option ℕ → Option (ℕ × ℕ)
first_of_two (some a) (some b) = some (if ltb b a then (b, 4) else (a, 2))
first_of_two (some a) none = some (a, 2)
first_of_two none (some b) = some (b, 4)
first_of_two none none = none

unfoldable pub frame_end : Bytes → Option (ℕ × ℕ)
unfolding find first_of_two
frame_end buf = first_of_two (find buf lf_lf) (find buf crlf_crlf)

abbrev pub push_some : List SseEvent → Option SseEvent → List SseEvent
push_some out none = out
push_some out (some ev) = snoc out ev

-- `loop` of `push`. Each round takes two bytes at least, so the buffer's length is fuel enough.
unfoldable pub take_frames : ℕ → Bytes → List SseEvent → List SseEvent × Bytes
unfolding frame_end parse_block
take_frames zero buf out = (out, buf)
take_frames (suc fuel) buf out = elim (frame_end buf) [
  | none ↦ (out, buf)
  | some (end, sep_len) ↦
      take_frames fuel (drop (end + sep_len) buf) (push_some out (parse_block (take end buf)))
]

unfoldable pub push : SseParser → Bytes → Result (List SseEvent) SseOverflow × SseParser
unfolding take_frames
push p chunk =
    let buf = p.buf ++ chunk in
    let (out, rest) = take_frames (length buf) buf [] in
    (
      if ltb p.limit_bytes (length rest)
          then err (record { limit_bytes = p.limit_bytes })
          else ok out,
      record p { buf = rest },
    )

abbrev pub buffered : SseParser → ℕ
buffered p = length p.buf

-- `finish_with_residue`, once the buffer is taken.
unfoldable pub residue_of : Bytes → Option SseEvent → List SseEvent × Bytes
residue_of rest (some ev) = (ev ∷ [], [])
residue_of rest none = ([], rest)

unfoldable pub finish_with_residue : SseParser → List SseEvent × Bytes
unfolding residue_of parse_block
finish_with_residue p = if is_empty p.buf then ([], []) else residue_of p.buf (parse_block p.buf)

unfoldable pub finish : SseParser → List SseEvent
unfolding parse_block
finish p = if is_empty p.buf then [] else push_some [] (parse_block p.buf)
