-- ===== src/UnitTests/SseRs.antt =====
-- The tests of chat2/src/sse.rs.
use beta_boot_git_ops.Sse.{
  SsePayload, comment, data_of, undecodable, SseEvent, SseOverflow, SseParser, new, push,
  with_limit, finish,
}
use beta_boot_git_ops.Text.{codes, contains}
use beta_boot_git_ops.Text.Utf8.{encode}
use beta_boot_git_ops.Base.{
  ◌-◌, ◌≡◌, refl, true, Option, none, some, List, [], ◌∷◌, ◌++◌, map, length, take, drop, Result,
  ok, err, Text, Bytes,
}

-- The payloads of `push(..).unwrap()`, where there is something to unwrap, and the parser after it.
abbrev payloads : Result (List SseEvent) SseOverflow → Option (List SsePayload)
payloads (ok evs) = some (map (λ (ev : SseEvent). ev.payload) evs)
payloads (err o) = none

abbrev returned : SseParser → Bytes → Option (List SsePayload)
returned p bytes = payloads (push p bytes).0

abbrev left : SseParser → Bytes → SseParser
left p bytes = (push p bytes).1

abbrev FrameSplitAcrossPushesReassembles : Type 0
FrameSplitAcrossPushesReassembles =
    let first : Bytes = codes "data: {\"a\":" in
    (returned new first ≡ some [])
    × (returned (left new first) (codes "1}\n\n") ≡ some (data_of (codes "{\"a\":1}") ∷ []))

frame_split_across_pushes_reassembles : FrameSplitAcrossPushesReassembles
unfolding push with_limit new
frame_split_across_pushes_reassembles = (refl, refl)

abbrev CrlfAndLfTerminatorsBothWork : Type 0
CrlfAndLfTerminatorsBothWork =
    (a : SsePayload) × (b : SsePayload) × (returned new (codes "data: one\r\n\r\ndata: two\n\n")
      ≡ some (a ∷ b ∷ []))

crlf_and_lf_terminators_both_work : CrlfAndLfTerminatorsBothWork
unfolding push with_limit new
crlf_and_lf_terminators_both_work = (data_of (codes "one"), data_of (codes "two"), refl)

abbrev CommentFramesSurfaceSeparately : Type 0
CommentFramesSurfaceSeparately =
    (c : Text) × (returned new (codes ": keep-alive\n\n") ≡ some (comment c ∷ []))

comment_frames_surface_separately : CommentFramesSurfaceSeparately
unfolding push with_limit new
comment_frames_surface_separately = (codes ": keep-alive", refl)

abbrev MultiDataLinesJoinWithNewline : Type 0
MultiDataLinesJoinWithNewline =
    returned new (codes "data: line1\ndata: line2\n\n") ≡ some (data_of (codes "line1\nline2") ∷ [])

multi_data_lines_join_with_newline : MultiDataLinesJoinWithNewline
unfolding push with_limit new
multi_data_lines_join_with_newline = refl

abbrev sixty_four_xs : Bytes
sixty_four_xs = codes "xxxxxxxxxxxxxxxxxxxxxxxxxxxxxxxxxxxxxxxxxxxxxxxxxxxxxxxxxxxxxxxx"

abbrev OverflowIsATypedError : Type 0
OverflowIsATypedError =
    (length sixty_four_xs ≡ 64)
    × (e : SseOverflow) × ((push (with_limit 16) sixty_four_xs).0 ≡ err e)
    × (e.limit_bytes ≡ 16)

overflow_is_a_typed_error : OverflowIsATypedError
unfolding push with_limit
overflow_is_a_typed_error = (refl, record { limit_bytes = 16 }, refl, refl)

abbrev FinishRecoversUnterminatedTail : Type 0
FinishRecoversUnterminatedTail =
    let bytes : Bytes = codes "data: [DONE]" in
    (returned new bytes ≡ some [])
    × (payloads (ok (finish (left new bytes))) ≡ some (data_of (codes "[DONE]") ∷ []))

finish_recovers_unterminated_tail : FinishRecoversUnterminatedTail
unfolding push with_limit new finish
finish_recovers_unterminated_tail = (refl, refl)

-- Bytes that are no UTF-8 come through as they are, with an error that says so.
abbrev bad_frame : Bytes
bad_frame = codes "data: {\"content\":\"" ++ (0xff ∷ 0xfe ∷ codes "\"}\n\n")

abbrev InvalidUtf8FrameIsUndecodableNotLossy : Type 0
InvalidUtf8FrameIsUndecodableNotLossy =
    (raw : Bytes) × (error : Text) × (returned new bad_frame ≡ some (undecodable raw error ∷ []))
    × (length raw ≡ length bad_frame - 2)
    × (contains (codes "utf-8") error ≡ true)

invalid_utf8_frame_is_undecodable_not_lossy : InvalidUtf8FrameIsUndecodableNotLossy
unfolding push with_limit new contains
invalid_utf8_frame_is_undecodable_not_lossy = (
  codes "data: {\"content\":\"" ++ (0xff ∷ 0xfe ∷ codes "\"}"),
  codes "invalid utf-8 sequence of 1 bytes from index 18",
  refl,
  refl,
  refl,
)

-- The two bytes of the last letter come in two reads.
abbrev Utf8MultibyteSurvivesChunkSplit : Type 0
Utf8MultibyteSurvivesChunkSplit =
    let bytes = encode (codes "data: café\n\n") in
    (returned new (take 8 bytes) ≡ some [])
    × (returned (left new (take 8 bytes)) (drop 8 bytes) ≡ some (data_of (codes "café") ∷ []))

utf8_multibyte_survives_chunk_split : Utf8MultibyteSurvivesChunkSplit
unfolding push with_limit new encode
utf8_multibyte_survives_chunk_split = (refl, refl)
