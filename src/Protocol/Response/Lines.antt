-- ===== src/Protocol/Response/Lines.antt =====
-- The lines of responses and their lengths (src/control/task_protocol.cc).
use glimmer.Prelude.{
  ◌≤◌, ◌≡◌, refl, ap, ◌∙◌, true, false, some, List, [], ◌∷◌, ◌++◌, arith, ltb, length,
  length-append,
}
use glimmer.Protocol.{
  Bytes, codes, bytes_eq, task_protocol_version, task_protocol_max_line_bytes, max_tokens,
  TokenList, line_of, spaced, all_bytes,
}
use glimmer.Protocol.Request.Format.{within_line}
use glimmer.Protocol.Tokens.{is_plain, is_word, all_words, split_tokens-spaced}
use glimmer.Protocol.Response.{
  TaskProtocolState, queued, running, completed, cancelled, failed, TaskProtocolErrorCode,
  invalid_request, quota_exceeded, queue_full, unknown_task, internal_failure, version_unsupported,
  state_token, error_token,
}
use glimmer.Protocol.Response.Parse.{
  parse_response_fields, parse_response_tokens, parse_task_protocol_response,
}

parse-line :
    (ts : List Bytes)
    → all_words (task_protocol_version ∷ ts) ≡ true
    → length (task_protocol_version ∷ ts) ≤ max_tokens
    → ltb task_protocol_max_line_bytes (length (line_of ts)) ≡ false
    → parse_task_protocol_response false (line_of ts)
      ≡ parse_response_tokens false (task_protocol_version ∷ ts) false
unfolding parse_task_protocol_response
parse-line ts w n fits = rw fits (
    ap (λ (t : TokenList). parse_response_tokens false t.values t.overflow)
      (split_tokens-spaced (task_protocol_version ∷ ts) w n))

read_response_tokens :
    (name : Bytes) (fs : List Bytes)
    → parse_response_tokens false (task_protocol_version ∷ name ∷ fs) false
      ≡ parse_response_fields false name fs
unfolding bytes_eq
read_response_tokens name fs = refl

pub parse_named :
    (name : Bytes) (fs : List Bytes)
    → is_word name ≡ true
    → all_words fs ≡ true
    → length fs ≤ 22
    → ltb task_protocol_max_line_bytes (length (line_of (name ∷ fs))) ≡ false
    → parse_task_protocol_response false (line_of (name ∷ fs)) ≡ parse_response_fields false name fs
unfolding all_words
parse_named name fs w ws n fits =
    parse-line (name ∷ fs) (unfold is_word all_bytes is_plain in rw w ws) (omega (arith, n)) fits
    ∙ read_response_tokens name fs

pub within_line_inv :
    (text line : Bytes)
    → within_line text ≡ some line
    → (line ≡ text) × (ltb task_protocol_max_line_bytes (length text) ≡ false)
within_line_inv text line h = (ground arith, ground arith)

pub ok_fits :
    (t : Bytes)
    → length t ≤ 20
    → ltb task_protocol_max_line_bytes (length (line_of (codes "OK" ∷ t ∷ []))) ≡ false
unfolding spaced
ok_fits t h = ground (arith, length-append t (10 ∷ []))

pub state_fits :
    (t u : Bytes)
    → length t ≤ 20
    → length u ≤ 9
    → ltb task_protocol_max_line_bytes (length (line_of (codes "STATE" ∷ t ∷ u ∷ []))) ≡ false
unfolding spaced
state_fits t u h k = ground (arith, length-append (t ++ 32 ∷ u) (10 ∷ []), length-append t (32 ∷ u))

pub state_token-length : (x : TaskProtocolState) → length (state_token x) ≤ 9
state_token-length queued = omega arith
state_token-length running = omega arith
state_token-length completed = omega arith
state_token-length cancelled = omega arith
state_token-length failed = omega arith

pub error_fits :
    (x : TaskProtocolErrorCode)
    → ltb task_protocol_max_line_bytes (length (line_of (codes "ERROR" ∷ error_token x ∷ [])))
      ≡ false
unfolding spaced
error_fits invalid_request = refl
error_fits quota_exceeded = refl
error_fits queue_full = refl
error_fits unknown_task = refl
error_fits internal_failure = refl
error_fits version_unsupported = refl
