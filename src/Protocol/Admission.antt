-- ===== src/Protocol/Admission.antt =====
-- The fields of an admission, written and read (src/control/task_protocol.cc).
use glimmer.Prelude.{
  ℕ, ◌≤◌, ◌≡◌, refl, ap, ◌∙◌, true, false, some, List, [], ◌∷◌, ◌==◌, arith, if◌then◌else◌, length,
  u64_max, u32_max, inl, inr, Bool-cases,
}
use glimmer.Protocol.{
  Bytes, TaskProtocolOperation, parsed, TaskAdmissionRequest, TaskProtocolRequest,
  is_valid_tenant_id, to_string,
}
use glimmer.Protocol.Request.{operation_request, parse_fields, parse_operation}
use glimmer.Protocol.Request.Format.{operation_name, admission_fields}
use glimmer.Protocol.Numbers.{parse_unsigned_integer-to_string, parse_positive_integer-to_string}
use glimmer.Protocol.Tokens.{all_words}
use glimmer.Protocol.Carried.{IsInRange, carried, to_string-is_word, tenant-is_word}
use glimmer.Protocol.Request.{priority_of, parse_admission}

-- The fields are words, at most five, and are read back.
pub record IsReadBack (r : TaskProtocolRequest) (op : TaskProtocolOperation) (fs : List Bytes)
    : Type 0 where
  pub words : all_words fs ≡ true
  pub few : length fs ≤ 5
  pub reads : parse_operation false (operation_name op) fs ≡ parsed (carried r op)

-- The priority is written only if it is not zero.
optional : ℕ → List Bytes
optional p = if p == 0 then [] else to_string p ∷ []

optional-read :
    (p : ℕ)
    → p ≤ u32_max
    → (priority_of (optional p) ≡ some p)
      × (all_words (optional p) ≡ true)
      × (length (optional p) ≤ 1)
unfolding optional all_words
optional-read p h = elim (Bool-cases (p == 0)) [
  | inl z ↦ rw z (ap some (ground arith), refl, omega arith)
  | inr z ↦ rw z (
    parse_unsigned_integer-to_string u32_max p (omega (arith, h)) h,
    rw (to_string-is_word p) refl,
    omega arith,
  )
]

fields_read :
    (op : TaskProtocolOperation) (a : TaskAdmissionRequest) (opt : List Bytes)
    → is_valid_tenant_id a.tenant_id ≡ true
    → (a.memory_bytes == 0) ≡ false
    → (a.weight == 0) ≡ false
    → (a.work_units == 0) ≡ false
    → a.memory_bytes ≤ u64_max
    → a.weight ≤ u32_max
    → a.work_units ≤ u32_max
    → priority_of opt ≡ some a.priority
    → parse_fields false op a.tenant_id
        (to_string a.memory_bytes)
        (to_string a.weight)
        (to_string a.work_units)
        opt
      ≡ parsed (record (operation_request op) { admission = a })
unfolding parse_fields
fields_read op a opt t m w u hm hw hu p =
    rw
      (
        t,
        parse_positive_integer-to_string u64_max a.memory_bytes hm hm m,
        parse_positive_integer-to_string u32_max a.weight (omega (arith, hw)) hw w,
        parse_positive_integer-to_string u32_max a.work_units (omega (arith, hu)) hu u,
        p,
      )
      refl

parse_admission-fields :
    (op : TaskProtocolOperation) (t m w u : Bytes) (opt : List Bytes)
    → length opt ≤ 1
    → parse_admission false op (t ∷ m ∷ w ∷ u ∷ opt) ≡ parse_fields false op t m w u opt
parse_admission-fields op t m w u [] h = refl
parse_admission-fields op t m w u (x ∷ []) h = refl
parse_admission-fields op t m w u (x ∷ y ∷ opt) h = absurd (omega (arith, h))

admission_fields_inv :
    (a : TaskAdmissionRequest) (fs : List Bytes)
    → admission_fields a ≡ some fs
    → (is_valid_tenant_id a.tenant_id ≡ true)
      × ((a.memory_bytes == 0) ≡ false)
      × ((a.weight == 0) ≡ false)
      × ((a.work_units == 0) ≡ false)
      × (fs
          ≡ a.tenant_id
            ∷ to_string a.memory_bytes
            ∷ to_string a.weight
            ∷ to_string a.work_units
            ∷ optional a.priority)
unfolding admission_fields optional
admission_fields_inv a fs h = (ground arith, ground arith, ground arith, ground arith, ground arith)

pub admission-IsReadBack :
    (r : TaskProtocolRequest) (op : TaskProtocolOperation) (fs : List Bytes)
    → IsInRange r
    → admission_fields r.admission ≡ some fs
    → carried r op ≡ record (operation_request op) { admission = r.admission }
    → ((gs : List Bytes)
        → parse_operation false (operation_name op) gs ≡ parse_admission false op gs)
    → IsReadBack r op fs
unfolding all_words
admission-IsReadBack r op fs v h same parses =
    let a = r.admission in
    let (t, m, w, u, e) = admission_fields_inv a fs h in
    let (p, words, few) = optional-read a.priority v.priority in
    record {
      words =
          rw
            (
              e,
              tenant-is_word a.tenant_id t,
              to_string-is_word a.memory_bytes,
              to_string-is_word a.weight,
              to_string-is_word a.work_units,
            )
            words;
      few = rw e (omega (arith, few));
      reads =
          rw (e, same)
            (parses _
              ∙ parse_admission-fields op _ _ _ _ (optional a.priority) few
              ∙ fields_read op a (optional a.priority) t m w u v.memory v.weight v.units p);
    }
