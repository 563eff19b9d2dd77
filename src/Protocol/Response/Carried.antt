-- ===== src/Protocol/Response/Carried.antt =====
-- What a response of the task protocol carries, and that its fields are words that can be read back
-- (src/control/task_protocol.cc).
use glimmer.Prelude.{
  ℕ, zero, suc, ◌+◌, ◌≤◌, ◌≡◌, refl, ap, ◌/◌, ◌%◌, Bool, true, ◌&&◌, some, List, [], ◌∷◌, ◌++◌,
  ◌==◌, arith, leb, length, u64_max, u32_max, inl, inr, Bool-cases,
}
use glimmer.Protocol.{Bytes, bytes_eq, to_string, to_string_within, digits, all_bytes}
use glimmer.Protocol.Numbers.{parse_unsigned_integer-to_string}
use glimmer.Protocol.Tokens.{is_plain, is_word, all_words}
use glimmer.Protocol.Carried.{to_string-is_word}
use glimmer.Protocol.Response.{
  TaskProtocolState, queued, running, completed, cancelled, failed, TaskProtocolErrorCode,
  invalid_request, quota_exceeded, queue_full, unknown_task, internal_failure, version_unsupported,
  TaskProtocolResponseKind, accepted_kind, state_kind, error_kind, lease_kind, empty_kind,
  stats_kind, metrics_kind, TaskProtocolResponse, response_of, state_token, error_token,
  parse_state, parse_error_code,
}
use glimmer.Protocol.Response.Parse.{parse_numbers}
use glimmer.Protocol.Response.Format.{strings_of, counts_of, times_of}

unfoldable pub all_small : List ℕ → Bool
all_small [] = true
all_small (n ∷ ns) = leb n u64_max && all_small ns

-- The members fit their types.
pub record IsInRange (r : TaskProtocolResponse) : Type 0 where
  pub id : r.task_id ≤ u64_max
  pub memory : r.memory_bytes ≤ u64_max
  pub weight : r.weight ≤ u32_max
  pub units : r.work_units ≤ u32_max
  pub counts : all_small (counts_of r.stats) ≡ true
  pub times : all_small (counts_of r.stats ++ times_of r.stats) ≡ true

-- What a response of each kind carries.
abbrev pub carried : TaskProtocolResponse → TaskProtocolResponseKind → TaskProtocolResponse
carried r accepted_kind = record (response_of accepted_kind) { task_id = r.task_id }
carried r state_kind = record (response_of state_kind) { task_id = r.task_id; state = r.state }
carried r error_kind = record (response_of error_kind) { error = r.error }
carried r lease_kind = record (response_of lease_kind) {
  task_id = r.task_id;
  tenant_id = r.tenant_id;
  memory_bytes = r.memory_bytes;
  weight = r.weight;
  work_units = r.work_units;
}
carried r empty_kind = response_of empty_kind
carried r stats_kind = record (response_of stats_kind) {
  stats = record r.stats {
    total_queue_wait_microseconds = 0;
    max_queue_wait_microseconds = 0;
    total_service_time_microseconds = 0;
    max_service_time_microseconds = 0;
  };
}
carried r metrics_kind = record (response_of metrics_kind) { stats = r.stats }

pub parse_numbers-strings_of :
    (ns : List ℕ) → all_small ns ≡ true → parse_numbers (strings_of ns) ≡ some ns
unfolding parse_numbers strings_of all_small
parse_numbers-strings_of [] h = refl
parse_numbers-strings_of (n ∷ ns) h =
    rw
      (
        parse_unsigned_integer-to_string u64_max n (ground arith) (ground arith),
        parse_numbers-strings_of ns (ground arith),
      )
      refl

pub all_words-strings_of : (ns : List ℕ) → all_words (strings_of ns) ≡ true
unfolding all_words strings_of
all_words-strings_of [] = refl
all_words-strings_of (n ∷ ns) = rw (to_string-is_word n) (all_words-strings_of ns)

pub length-strings_of : (ns : List ℕ) → length (strings_of ns) ≡ length ns
unfolding strings_of
length-strings_of [] = refl
length-strings_of (n ∷ ns) = ap suc (length-strings_of ns)

pub parse_state-state_token : (x : TaskProtocolState) → parse_state (state_token x) ≡ some x
unfolding parse_state bytes_eq
parse_state-state_token queued = refl
parse_state-state_token running = refl
parse_state-state_token completed = refl
parse_state-state_token cancelled = refl
parse_state-state_token failed = refl

pub parse_error_code-error_token :
    (x : TaskProtocolErrorCode) → parse_error_code (error_token x) ≡ some x
unfolding parse_error_code bytes_eq
parse_error_code-error_token invalid_request = refl
parse_error_code-error_token quota_exceeded = refl
parse_error_code-error_token queue_full = refl
parse_error_code-error_token unknown_task = refl
parse_error_code-error_token internal_failure = refl
parse_error_code-error_token version_unsupported = refl

pub state_token-is_word : (x : TaskProtocolState) → is_word (state_token x) ≡ true
unfolding is_word all_bytes is_plain
state_token-is_word queued = refl
state_token-is_word running = refl
state_token-is_word completed = refl
state_token-is_word cancelled = refl
state_token-is_word failed = refl

pub error_token-is_word : (x : TaskProtocolErrorCode) → is_word (error_token x) ≡ true
unfolding is_word all_bytes is_plain
error_token-is_word invalid_request = refl
error_token-is_word quota_exceeded = refl
error_token-is_word queue_full = refl
error_token-is_word unknown_task = refl
error_token-is_word internal_failure = refl
error_token-is_word version_unsupported = refl

length-digits : (k n : ℕ) (out : Bytes) → length (digits k n out) ≤ k + length out
unfolding digits
length-digits zero n out = omega arith
length-digits (suc k) n out = elim (Bool-cases (n == 0)) [
  | inl z ↦ rw z (omega arith)
  | inr z ↦ rw z (omega (arith, length-digits k (n / 10) ((48 + n % 10) ∷ out)))
]

length-to_string_within : (k n : ℕ) → length (to_string_within (suc k) n) ≤ suc k
unfolding to_string_within
length-to_string_within k n = elim (Bool-cases (n == 0)) [
  | inl z ↦ rw z (omega arith)
  | inr z ↦ rw z (omega (arith, length-digits k (n / 10) ((48 + n % 10) ∷ [])))
]

pub length-to_string : (n : ℕ) → length (to_string n) ≤ 20
length-to_string n = unfold to_string in length-to_string_within 19 n
