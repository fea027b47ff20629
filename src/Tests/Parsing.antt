-- ===== src/Tests/Parsing.antt =====
-- Frames, texts and payloads.
use beta_boot_git_ops.Normalize.{normalize}
use beta_boot_git_ops.Normalize.Events.{Becomes, normalize-Becomes}
use beta_boot_git_ops.Sse.{
  lf_lf, data_of, SseEvent, SseParser, with_limit, push, buffered, parse_block, finish,
  finish_with_residue,
}
use beta_boot_git_ops.Sse.Block.{
  Accounts, parse_block-Accounts, Settles, finish_with_residue-Settles,
}
use beta_boot_git_ops.Sse.Leftmost.{IsFramed}
use beta_boot_git_ops.Sse.Push.{feed, pushed, push-IsFramed, feed-push, feed_bounded}
use beta_boot_git_ops.Sse.Terminators.{HasTerminator}
use beta_boot_git_ops.Tests.Samples.{json, first_read, second_read}
use beta_boot_git_ops.Text.{codes}
use beta_boot_git_ops.Text.Utf8.{from_utf8, encode}
use beta_boot_git_ops.Text.Utf8.Strict.{from_utf8-encode}
use beta_boot_git_ops.Sse.Stream.{line_of, received, feed-received}
use beta_boot_git_ops.Text.Utf8.Encoded.{is_scalar}
use beta_boot_git_ops.Base.{arith, ℕ, ◌≤◌, ◌≡◌, refl, List, [], ◌∷◌, ◌++◌, concat, ok, Text, Bytes}

abbrev parser : SseParser
parser = record { buf = first_read; limit_bytes = 64 }

abbrev reads : List Bytes
reads = first_read ∷ second_read ∷ codes "data: x" ∷ []

abbrev event : Text → ℕ → SseEvent
event d n = record { payload = data_of d; raw_byte_len = n }

abbrev events : List SseEvent
events = event (codes "Hello") 11 ∷ event (codes "stop") 10 ∷ event (codes "[DONE]") 12 ∷ []

abbrev left : SseParser
left = record { buf = codes "data: x"; limit_bytes = 64 }

feed_reads : feed (with_limit 64) reads ≡ (ok events, left)
unfolding feed push with_limit
feed_reads = refl

-- The bound is on what is left, not on what comes.
overflow :
    (push (with_limit 4) second_read).0
    ≡ ok (event (codes "stop") 10 ∷ event (codes "[DONE]") 12 ∷ [])
unfolding push with_limit
overflow = refl

push-IsFramed_example :
    (blocks : List Bytes) × (tail : Bytes) × IsFramed (first_read ++ second_read) blocks tail
    × (push parser second_read ≡ pushed parser blocks tail)
push-IsFramed_example = push-IsFramed parser second_read

feed-push_example : push (with_limit 64) (concat reads) ≡ (ok events, left)
feed-push_example = feed-push 64 reads feed_reads

feed_bounded_example : (buffered left ≤ 64) × ¬ HasTerminator left.buf
feed_bounded_example = feed_bounded 64 reads feed_reads

parse_block-Accounts_example :
    Accounts (codes "id: 1\ndata: a\ndata: b") (parse_block (codes "id: 1\ndata: a\ndata: b"))
parse_block-Accounts_example = parse_block-Accounts (codes "id: 1\ndata: a\ndata: b")

finish_with_residue-Settles_example :
    Settles left.buf (finish_with_residue left) × (finish left ≡ (finish_with_residue left).0)
finish_with_residue-Settles_example = finish_with_residue-Settles left

-- Two bytes, one character.
from_utf8_e_acute : from_utf8 (99 ∷ 0xC3 ∷ 0xA9 ∷ []) ≡ ok (99 ∷ 0xE9 ∷ [])
unfolding from_utf8
from_utf8_e_acute = refl

from_utf8-encode_example : encode (99 ∷ 0xE9 ∷ []) ≡ 99 ∷ 0xC3 ∷ 0xA9 ∷ []
from_utf8-encode_example = from_utf8-encode (99 ∷ 0xC3 ∷ 0xA9 ∷ []) from_utf8_e_acute

normalize-Becomes_example : Becomes json (codes " [DONE] ") (normalize json (codes " [DONE] "))
normalize-Becomes_example = normalize-Becomes json (codes " [DONE] ")

hello_text : from_utf8 (codes "data: Hello") ≡ ok (codes "data: " ++ codes "Hello")
unfolding from_utf8
hello_text = refl

-- Two lines, the second one not of ASCII alone, cut within the second's character.
abbrev sent_reads : List Bytes
sent_reads =
    (line_of (codes "a") ++ (lf_lf ++ (codes "data: " ++ (0xC3 ∷ [])))) ∷ (0xA9 ∷ lf_lf) ∷ []

feed-received_example :
    feed (with_limit 64) sent_reads ≡ (ok (received (codes "a" ∷ (0xE9 ∷ []) ∷ [])), with_limit 64)
unfolding encode is_scalar
feed-received_example =
    feed-received 64 sent_reads (codes "a" ∷ (0xE9 ∷ []) ∷ [])
      (((refl, tt), refl), (((refl, tt), refl), tt)) refl (omega arith)
