-- ===== src/Protocol/Carried.antt =====
-- What a request of the task protocol carries, and that its fields are words
-- (src/control/task_protocol.cc).
use glimmer.Prelude.{ℕ, ◌≤◌, ◌≡◌, refl, true, [], ◌∷◌, arith, u64_max, u32_max}
use glimmer.Protocol.{
  Bytes, TaskProtocolOperation, submit, acquire, wait, stats, metrics, TaskProtocolRequest,
  all_bytes, is_valid_tenant_id, is_tenant_byte, is_ascii_alphanumeric, to_string,
}
use glimmer.Protocol.Request.{operation_request}
use glimmer.Protocol.Numbers.{is_digit, to_string-shape}
use glimmer.Protocol.Tokens.{is_plain, is_word}

-- The members fit their types.
pub record IsInRange (r : TaskProtocolRequest) : Type 0 where
  pub id : r.task_id ≤ u64_max
  pub timeout : r.wait_timeout_ms ≤ u32_max
  pub memory : r.admission.memory_bytes ≤ u64_max
  pub weight : r.admission.weight ≤ u32_max
  pub units : r.admission.work_units ≤ u32_max
  pub priority : r.admission.priority ≤ u32_max

-- What a request of each kind carries; the other members have their defaults.
abbrev pub carried : TaskProtocolRequest → TaskProtocolOperation → TaskProtocolRequest
carried r submit = record (operation_request submit) { admission = r.admission }
carried r acquire = record (operation_request acquire) { admission = r.admission }
carried r wait = record (operation_request wait) {
  task_id = r.task_id;
  wait_timeout_ms = r.wait_timeout_ms;
}
carried r stats = operation_request stats
carried r metrics = operation_request metrics
carried r op = record (operation_request op) { task_id = r.task_id }

digits_plain : (t : Bytes) → all_bytes is_digit t ≡ true → all_bytes is_plain t ≡ true
unfolding all_bytes is_digit is_plain
digits_plain [] h = refl
digits_plain (c ∷ t) h = ground (arith, digits_plain t)

word_of :
    (t : Bytes) (x : ℕ) (xs : Bytes) → t ≡ x ∷ xs → all_bytes is_plain t ≡ true → is_word t ≡ true
unfolding is_word
word_of [] x xs e h = cc
word_of (c ∷ t) x xs e h = h

pub to_string-is_word : (n : ℕ) → is_word (to_string n) ≡ true
unfolding is_word
to_string-is_word n =
    let (x, xs, e, d) = to_string-shape n in
    word_of (to_string n) x xs e (digits_plain (to_string n) d)

tenant_plain : (t : Bytes) → all_bytes is_tenant_byte t ≡ true → all_bytes is_plain t ≡ true
unfolding all_bytes is_tenant_byte is_ascii_alphanumeric is_plain
tenant_plain [] h = refl
tenant_plain (c ∷ t) h = ground (arith, tenant_plain t)

pub tenant-is_word : (t : Bytes) → is_valid_tenant_id t ≡ true → is_word t ≡ true
unfolding is_valid_tenant_id is_word
tenant-is_word [] h = cc
tenant-is_word (c ∷ t) h = tenant_plain (c ∷ t) (ground arith)
