-- ===== src/Sse/RoundTrip.antt =====
-- A frame that a peer sends is the event that the parser returns.
use beta_boot_git_ops.Sse.{
  data_of, cons_some, lf_lf, crlf_crlf, data_value, data_values, of_values, of_text, parse_block,
  with_limit, push,
}
use beta_boot_git_ops.Sse.Frames.{split_frame, cons_block}
use beta_boot_git_ops.Sse.Push.{pushed_as}
use beta_boot_git_ops.Sse.Search.{begins}
use beta_boot_git_ops.Sse.Splits.{stop, frame, split_frame-nil}
use beta_boot_git_ops.Text.{codes, split_once, text_eq}
use beta_boot_git_ops.Text.Lines.{lines}
use beta_boot_git_ops.Text.Lines.Single.{has, has-cons, lines-single}
use beta_boot_git_ops.Text.Utf8.{from_utf8, encode_char, encode}
use beta_boot_git_ops.Text.Utf8.Strict.{from_utf8-encode}
use beta_boot_git_ops.Base.{
  ℕ, ◌≡◌, refl, ap, ◌∙◌, subst, inl, inr, false, some, List, [], ◌∷◌, ◌++◌, arith, ◌==◌, Bool-cases,
  length, ok, Text, Bytes,
}

has-append :
    (x : ℕ) (xs ys : List ℕ) → has x xs ≡ false → has x ys ≡ false → has x (xs ++ ys) ≡ false
has-append x [] ys h k = k
has-append x (c ∷ xs) ys h k =
    let (first, others) = has-cons x c xs h in rw first (has-append x xs ys others k)

-- A newline's byte is the newline's alone.
has-encode_char : (c : ℕ) → (c == 10) ≡ false → has 10 (encode_char c) ≡ false
unfolding encode_char
has-encode_char c h = ground arith

pub has-encode : (t : Text) → has 10 t ≡ false → has 10 (encode t) ≡ false
unfolding encode
has-encode [] h = refl
has-encode (c ∷ t) h =
    let (first, others) = has-cons 10 c t h in
    has-append 10 (encode_char c) (encode t) (has-encode_char c first) (has-encode t others)

flip : (c : ℕ) → (c == 10) ≡ false → (10 == c) ≡ false
flip c h = ground arith

no_blank_line : (bs : Bytes) → has 10 bs ≡ false → begins (10 ∷ 13 ∷ 10 ∷ []) (bs ++ lf_lf) ≡ false
no_blank_line [] h = refl
no_blank_line (c ∷ bs) h = rw (flip c (has-cons 10 c bs h).0) refl

no_crlf_crlf :
    (c : ℕ) (bs : Bytes) → has 10 bs ≡ false → begins crlf_crlf (c ∷ (bs ++ lf_lf)) ≡ false
no_crlf_crlf c bs h = elim (Bool-cases (13 == c)) [
  | inl q ↦ rw q (no_blank_line bs h)
  | inr q ↦ rw q refl
]

no_lf_lf : (c : ℕ) (cs : Bytes) → (c == 10) ≡ false → begins lf_lf (c ∷ cs) ≡ false
no_lf_lf c cs h = rw (flip c h) refl

pub split_frame-ended : (bs : Bytes) → has 10 bs ≡ false → split_frame (bs ++ lf_lf) ≡ some (bs, [])
unfolding split_frame
split_frame-ended [] h = refl
split_frame-ended (c ∷ bs) h =
    let (first, others) = has-cons 10 c bs h in
    rw (no_crlf_crlf c bs others, no_lf_lf c (bs ++ lf_lf) first)
      (ap (cons_block c) (split_frame-ended bs others))

data_value-data : (d : Text) → data_value (codes "data: " ++ d) ≡ some d
unfolding data_value split_once text_eq
data_value-data d = refl

pub parse_block-data :
    (bs : Bytes) (d : Text)
    → from_utf8 bs ≡ ok (codes "data: " ++ d)
    → has 10 d ≡ false
    → parse_block bs ≡ some (record { payload = data_of d; raw_byte_len = length bs })
unfolding parse_block of_text of_values data_values
parse_block-data bs d e h =
    let one : lines (codes "data: " ++ d) ≡ (codes "data: " ++ d) ∷ [] =
      lines-single b'd' (codes "ata: " ++ d) h in
    rw (e, parse_block)
      (ap (λ ls. of_values bs (data_values ls)) one
        ∙ ap (λ o. of_values bs (cons_some o [])) (data_value-data d))

-- What a peer sends comes back: a line with a `data` field, as UTF-8 bytes and ended by a blank
-- line, is returned as the one event with the field's value and the number of the bytes, and the
-- parser is as new. The value holds no newline.
push-data :
    (limit : ℕ) (bs : Bytes) (d : Text)
    → from_utf8 bs ≡ ok (codes "data: " ++ d)
    → has 10 d ≡ false
    → push (with_limit limit) (bs ++ lf_lf)
      ≡ (ok (record { payload = data_of d; raw_byte_len = length bs } ∷ []), with_limit limit)
unfolding with_limit
push-data limit bs d e h =
    let no_newline : has 10 bs ≡ false =
      subst (λ x. has 10 x ≡ false) (from_utf8-encode bs e) (has-encode (codes "data: " ++ d) h) in
    pushed_as (with_limit limit) (bs ++ lf_lf)
      (frame (split_frame-ended bs no_newline) (stop split_frame-nil refl))
    ∙ rw (parse_block-data bs d e h) (ground arith)
