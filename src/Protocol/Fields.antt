-- ===== src/Protocol/Fields.antt =====
-- The fields of each kind of request, written and read (src/control/task_protocol.cc).
use glimmer.Prelude.{
  ◌≡◌, refl, ap, ◌∙◌, false, some, List, [], ◌∷◌, ◌==◌, arith, ltb, u64_max, u32_max, inl, inr,
  Bool-cases,
}
use glimmer.Protocol.{
  max_wait_timeout_ms, parse_positive_integer, Bytes, bytes_eq, TaskProtocolOperation, submit,
  acquire, cancel, query, claim, wait, heartbeat, complete, fail, stats, metrics, parsed,
  TaskProtocolRequest, to_string,
}
use glimmer.Protocol.Request.{
  operation_request, parse_operation, parse_claim, parse_wait, parse_task, task_operation,
}
use glimmer.Protocol.Request.Format.{operation_name, task_fields, fields_of}
use glimmer.Protocol.Numbers.{parse_unsigned_integer-to_string, parse_positive_integer-to_string}
use glimmer.Protocol.Tokens.{all_words}
use glimmer.Protocol.Carried.{IsInRange, carried, to_string-is_word}
use glimmer.Protocol.Request.{for_task}
use glimmer.Protocol.Admission.{IsReadBack, admission-IsReadBack}

task-IsReadBack :
    (r : TaskProtocolRequest) (op : TaskProtocolOperation) (fs : List Bytes)
    → IsInRange r
    → task_fields r.task_id ≡ some fs
    → carried r op ≡ record (operation_request op) { task_id = r.task_id }
    → ((t : Bytes)
        → parse_operation false (operation_name op) (t ∷ [])
          ≡ for_task (some op) (parse_positive_integer u64_max t))
    → IsReadBack r op fs
unfolding all_words task_fields
task-IsReadBack r op fs v h same parses =
    let z : (r.task_id == 0) ≡ false = ground arith in
    let e : fs ≡ to_string r.task_id ∷ [] = ground arith in
    record {
      words = rw (e, to_string-is_word r.task_id) refl;
      few = rw e (omega arith);
      reads =
          rw (e, same)
            (parses (to_string r.task_id)
              ∙ ap (for_task (some op))
                  (parse_positive_integer-to_string u64_max r.task_id v.id v.id z));
    }

claim-IsReadBack :
    (r : TaskProtocolRequest) (fs : List Bytes)
    → IsInRange r
    → fields_of r claim ≡ some fs
    → IsReadBack r claim fs
unfolding all_words fields_of
claim-IsReadBack r fs v h = elim (Bool-cases (r.task_id == 0)) [
  | inl z ↦
      let e : fs ≡ [] = ground arith in
      record {
        words = rw e refl;
        few = rw e (omega arith);
        reads = rw e (
            unfold parse_operation bytes_eq parse_claim in
            ap (λ n. parsed (record (operation_request claim) { task_id = n })) (ground arith));
      }
  | inr z ↦
      let e : fs ≡ to_string r.task_id ∷ [] = ground arith in
      record {
        words = rw (e, to_string-is_word r.task_id) refl;
        few = rw e (omega arith);
        reads = rw e (
            unfold parse_operation bytes_eq parse_claim in
            rw (parse_unsigned_integer-to_string u64_max r.task_id v.id v.id, z) refl);
      }
]

wait-IsReadBack :
    (r : TaskProtocolRequest) (fs : List Bytes)
    → IsInRange r
    → fields_of r wait ≡ some fs
    → IsReadBack r wait fs
unfolding all_words fields_of
wait-IsReadBack r fs v h =
    let z : (r.task_id == 0) ≡ false = ground arith in
    let y : (r.wait_timeout_ms == 0) ≡ false = ground arith in
    let x : ltb max_wait_timeout_ms r.wait_timeout_ms ≡ false = ground arith in
    let e : fs ≡ to_string r.task_id ∷ to_string r.wait_timeout_ms ∷ [] = ground arith in
    record {
      words = rw (e, to_string-is_word r.task_id, to_string-is_word r.wait_timeout_ms) refl;
      few = rw e (omega arith);
      reads = rw e (
          unfold parse_operation bytes_eq parse_wait in
          rw
            (
              parse_positive_integer-to_string u64_max r.task_id v.id v.id z,
              parse_positive_integer-to_string u32_max r.wait_timeout_ms (omega (arith, v.timeout))
                  v.timeout y,
              x,
            )
            refl);
    }

bare-IsReadBack :
    (r : TaskProtocolRequest) (op : TaskProtocolOperation) (fs : List Bytes)
    → fs ≡ []
    → carried r op ≡ operation_request op
    → parse_operation false (operation_name op) [] ≡ parsed (operation_request op)
    → IsReadBack r op fs
unfolding all_words
bare-IsReadBack r op fs e same reads = record {
  words = rw e refl;
  few = rw e (omega arith);
  reads = rw (e, same) reads;
}

pub fields-IsReadBack :
    (r : TaskProtocolRequest) (op : TaskProtocolOperation) (fs : List Bytes)
    → IsInRange r
    → fields_of r op ≡ some fs
    → IsReadBack r op fs
unfolding fields_of parse_operation bytes_eq parse_task task_operation
fields-IsReadBack r submit fs v h = admission-IsReadBack r submit fs v h refl (λ gs. refl)
fields-IsReadBack r acquire fs v h = admission-IsReadBack r acquire fs v h refl (λ gs. refl)
fields-IsReadBack r cancel fs v h = task-IsReadBack r cancel fs v h refl (λ t. refl)
fields-IsReadBack r query fs v h = task-IsReadBack r query fs v h refl (λ t. refl)
fields-IsReadBack r claim fs v h = claim-IsReadBack r fs v h
fields-IsReadBack r wait fs v h = wait-IsReadBack r fs v h
fields-IsReadBack r heartbeat fs v h = task-IsReadBack r heartbeat fs v h refl (λ t. refl)
fields-IsReadBack r complete fs v h = task-IsReadBack r complete fs v h refl (λ t. refl)
fields-IsReadBack r fail fs v h = task-IsReadBack r fail fs v h refl (λ t. refl)
fields-IsReadBack r stats fs v h = bare-IsReadBack r stats fs (ground arith) refl refl
fields-IsReadBack r metrics fs v h = bare-IsReadBack r metrics fs (ground arith) refl refl
