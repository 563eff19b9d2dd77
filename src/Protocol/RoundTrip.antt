-- ===== src/Protocol/RoundTrip.antt =====
-- A request of the task protocol that is written can be read (src/control/task_protocol.cc).
use glimmer.Prelude.{
  ◌≤◌, ◌≡◌, refl, ap, sym, ◌∙◌, true, false, Option, none, some, List, ◌∷◌, arith, ltb, length,
}
use glimmer.Protocol.{
  Bytes, bytes_eq, task_protocol_version, task_protocol_max_line_bytes, max_tokens,
  TaskProtocolOperation, submit, acquire, cancel, query, claim, wait, heartbeat, complete, fail,
  stats, metrics, parsed, TaskProtocolRequest, TokenList, line_of, all_bytes,
}
use glimmer.Protocol.Request.{parse_operation, parse_tokens, parse_task_protocol_request}
use glimmer.Protocol.Request.Format.{
  operation_name, fields_of, format_fields, format_task_protocol_request,
}
use glimmer.Protocol.Tokens.{is_plain, is_word, all_words, split_tokens-spaced}
use glimmer.Protocol.Carried.{IsInRange, carried}
use glimmer.Protocol.Fields.{fields-IsReadBack}

format_fields_inv :
    (op : TaskProtocolOperation) (o : Option (List Bytes)) (line : Bytes)
    → format_fields op o ≡ some line
    → (fs : List Bytes) × (o ≡ some fs)
      × (line ≡ line_of (operation_name op ∷ fs))
      × (ltb task_protocol_max_line_bytes (length line) ≡ false)
format_fields_inv op none line h = cc
format_fields_inv op (some fs) line h = (fs, refl, ground arith, ground arith)

names_are_words : (op : TaskProtocolOperation) → is_word (operation_name op) ≡ true
unfolding is_word all_bytes is_plain
names_are_words submit = refl
names_are_words acquire = refl
names_are_words cancel = refl
names_are_words query = refl
names_are_words claim = refl
names_are_words wait = refl
names_are_words heartbeat = refl
names_are_words complete = refl
names_are_words fail = refl
names_are_words stats = refl
names_are_words metrics = refl

words_of :
    (op : TaskProtocolOperation) (fs : List Bytes)
    → all_words fs ≡ true
    → all_words (task_protocol_version ∷ operation_name op ∷ fs) ≡ true
unfolding all_words is_word all_bytes is_plain
words_of op fs h = rw (names_are_words op) h

read_tokens :
    (name : Bytes) (fs : List Bytes)
    → parse_tokens false (task_protocol_version ∷ name ∷ fs) false ≡ parse_operation false name fs
unfolding bytes_eq
read_tokens name fs = refl

parse-line :
    (ts : List Bytes)
    → all_words (task_protocol_version ∷ ts) ≡ true
    → length (task_protocol_version ∷ ts) ≤ max_tokens
    → ltb task_protocol_max_line_bytes (length (line_of ts)) ≡ false
    → parse_task_protocol_request false (line_of ts)
      ≡ parse_tokens false (task_protocol_version ∷ ts) false
unfolding parse_task_protocol_request
parse-line ts w n fits = rw fits (
    ap (λ (t : TokenList). parse_tokens false t.values t.overflow)
      (split_tokens-spaced (task_protocol_version ∷ ts) w n))

-- Let the members of a request fit their types, and let it be written as a line. Reading the line
-- succeeds, when the allocation does, and gives back the operation and every member that a request
-- of its kind carries; the other members have their defaults.
pub parse-format_task_protocol_request :
    (r : TaskProtocolRequest) (line : Bytes)
    → IsInRange r
    → format_task_protocol_request r ≡ some line
    → parse_task_protocol_request false line ≡ parsed (carried r r.operation)
unfolding format_task_protocol_request
parse-format_task_protocol_request r line v h =
    let (fs, o, e, fits) = format_fields_inv r.operation (fields_of r r.operation) line h in
    let back = fields-IsReadBack r r.operation fs v o in
    rw e (
      parse-line (operation_name r.operation ∷ fs) (words_of r.operation fs back.words)
        (omega (arith, back.few))
        (ap (λ l. ltb task_protocol_max_line_bytes (length l)) (sym e) ∙ fits)
      ∙ read_tokens (operation_name r.operation) fs
      ∙ back.reads)
