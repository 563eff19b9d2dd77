-- ===== src/Protocol/Response/RoundTrip.antt =====
-- A response of the task protocol that is written can be read (src/control/task_protocol.cc).
use glimmer.Prelude.{
  ℕ, ◌≡◌, refl, ap, sym, ◌∙◌, Bool, true, false, not, ◌||◌, Option, none, some, List, [], ◌∷◌, ◌++◌,
  ◌==◌, arith, if◌then◌else◌, u64_max, u32_max,
}
use glimmer.Protocol.{
  Bytes, codes, bytes_eq, parsed, line_of, spaced, is_valid_tenant_id, to_string, all_bytes,
  parse_positive_integer,
}
use glimmer.Protocol.Request.Format.{task_fields}
use glimmer.Protocol.Numbers.{parse_positive_integer-to_string}
use glimmer.Protocol.Tokens.{is_plain, is_word, all_words}
use glimmer.Protocol.Carried.{to_string-is_word, tenant-is_word}
use glimmer.Protocol.Response.{
  TaskProtocolResponseKind, accepted_kind, state_kind, error_kind, lease_kind, empty_kind,
  stats_kind, metrics_kind, TaskProtocolStats, TaskProtocolResponse, state_token, error_token,
}
use glimmer.Protocol.Response.Parse.{
  stats_of?, with_stats, parse_stats, with_id, with_error, leased, parse_response_fields,
  parse_task_protocol_response,
}
use glimmer.Protocol.Response.Format.{
  strings_of, counts_of, times_of, named, format_lease, format_by, format_task_protocol_response,
}
use glimmer.Protocol.Response.Carried.{
  IsInRange, carried, parse_numbers-strings_of, all_words-strings_of, length-strings_of,
  parse_state-state_token, parse_error_code-error_token, state_token-is_word, error_token-is_word,
  length-to_string,
}
use glimmer.Protocol.Response.Lines.{
  parse_named, within_line_inv, ok_fits, state_fits, state_token-length, error_fits,
}

accepted_read :
    (r : TaskProtocolResponse) (line : Bytes)
    → IsInRange r
    → named (codes "OK") (task_fields r.task_id) ≡ some line
    → parse_task_protocol_response false line ≡ parsed (carried r accepted_kind)
unfolding task_fields all_words
accepted_read r line v h =
    let z : (r.task_id == 0) ≡ false = ground arith in
    let e : line ≡ line_of (codes "OK" ∷ to_string r.task_id ∷ []) = ground arith in
    rw e (
      parse_named (codes "OK") (to_string r.task_id ∷ [])
        (unfold is_word all_bytes is_plain in refl) (rw (to_string-is_word r.task_id) refl)
        (omega arith) (ok_fits (to_string r.task_id) (length-to_string r.task_id))
      ∙ unfold parse_response_fields bytes_eq in
        ap with_id (parse_positive_integer-to_string u64_max r.task_id v.id v.id z))

state_read :
    (r : TaskProtocolResponse) (line : Bytes)
    → IsInRange r
    → format_by r state_kind ≡ some line
    → parse_task_protocol_response false line ≡ parsed (carried r state_kind)
unfolding format_by all_words
state_read r line v h =
    let z : (r.task_id == 0) ≡ false = ground arith in
    let e : line ≡ line_of (codes "STATE" ∷ to_string r.task_id ∷ state_token r.state ∷ []) =
      ground arith in
    rw e (
      parse_named (codes "STATE") (to_string r.task_id ∷ state_token r.state ∷ [])
        (unfold is_word all_bytes is_plain in refl)
        (rw (to_string-is_word r.task_id, state_token-is_word r.state) refl) (omega arith)
        (state_fits (to_string r.task_id) (state_token r.state) (length-to_string r.task_id)
          (state_token-length r.state))
      ∙ unfold parse_response_fields bytes_eq in
        rw
          (
            parse_positive_integer-to_string u64_max r.task_id v.id v.id z,
            parse_state-state_token r.state,
          )
          refl)

error_read :
    (r : TaskProtocolResponse) (line : Bytes)
    → format_by r error_kind ≡ some line
    → parse_task_protocol_response false line ≡ parsed (carried r error_kind)
unfolding format_by all_words
error_read r line h =
    let e : line ≡ line_of (codes "ERROR" ∷ error_token r.error ∷ []) = ground arith in
    rw e (
      parse_named (codes "ERROR") (error_token r.error ∷ [])
        (unfold is_word all_bytes is_plain in refl) (rw (error_token-is_word r.error) refl)
        (omega arith) (error_fits r.error)
      ∙ unfold parse_response_fields bytes_eq in
        ap with_error (parse_error_code-error_token r.error))

empty_read :
    (r : TaskProtocolResponse) (line : Bytes)
    → format_by r empty_kind ≡ some line
    → parse_task_protocol_response false line ≡ parsed (carried r empty_kind)
unfolding format_by all_words
empty_read r line h =
    let e : line ≡ line_of (codes "EMPTY" ∷ []) = ground arith in
    rw e (
      parse_named (codes "EMPTY") [] (unfold is_word all_bytes is_plain in refl) refl (omega arith)
        (unfold spaced in refl)
      ∙ unfold parse_response_fields bytes_eq in refl)

lease_tokens :
    (t n m w u : Bytes)
    → parse_response_fields false (codes "LEASE") (t ∷ n ∷ m ∷ w ∷ u ∷ [])
      ≡ leased false n
          (parse_positive_integer u64_max t)
          (parse_positive_integer u64_max m)
          (parse_positive_integer u32_max w)
          (parse_positive_integer u32_max u)
unfolding parse_response_fields bytes_eq
lease_tokens t n m w u = refl

leased_read :
    (r : TaskProtocolResponse) (id memory weight units : Option ℕ)
    → is_valid_tenant_id r.tenant_id ≡ true
    → id ≡ some r.task_id
    → memory ≡ some r.memory_bytes
    → weight ≡ some r.weight
    → units ≡ some r.work_units
    → leased false r.tenant_id id memory weight units ≡ parsed (carried r lease_kind)
leased_read r id memory weight units t i m w u = rw (i, m, w, u, t) refl

format_guarded : (g : Bool) (o : Option Bytes) → g ≡ false → (if g then none else o) ≡ o
format_guarded g o h = rw h refl

lease_read :
    (r : TaskProtocolResponse) (line : Bytes)
    → IsInRange r
    → format_lease r ≡ some line
    → parse_task_protocol_response false line ≡ parsed (carried r lease_kind)
unfolding format_lease all_words
lease_read r line v h =
    let guard : r.task_id == 0
          || not (is_valid_tenant_id r.tenant_id)
          || r.memory_bytes == 0
          || r.weight == 0
          || r.work_units == 0
        ≡ false =
      ground arith in
    let fs : List Bytes =
      to_string r.task_id
      ∷ r.tenant_id
      ∷ to_string r.memory_bytes
      ∷ to_string r.weight
      ∷ to_string r.work_units
      ∷ [] in
    let (e, fits) =
      within_line_inv (line_of (codes "LEASE" ∷ fs)) line (sym (format_guarded _ _ guard) ∙ h) in
    let tenant : is_valid_tenant_id r.tenant_id ≡ true = ground arith in
    rw e (
      parse_named (codes "LEASE") fs (unfold is_word all_bytes is_plain in refl)
        (rw
          (
            to_string-is_word r.task_id,
            tenant-is_word r.tenant_id tenant,
            to_string-is_word r.memory_bytes,
            to_string-is_word r.weight,
            to_string-is_word r.work_units,
          )
          refl)
        (omega arith) fits
      ∙ lease_tokens (to_string r.task_id) r.tenant_id (to_string r.memory_bytes)
          (to_string r.weight) (to_string r.work_units)
      ∙ leased_read r _ _ _ _ tenant
          (parse_positive_integer-to_string u64_max r.task_id v.id v.id (ground (arith, guard)))
          (parse_positive_integer-to_string u64_max r.memory_bytes v.memory v.memory
            (ground (arith, guard)))
          (parse_positive_integer-to_string u32_max r.weight (omega (arith, v.weight)) v.weight
            (ground (arith, guard)))
          (parse_positive_integer-to_string u32_max r.work_units (omega (arith, v.units)) v.units
            (ground (arith, guard))))

count_tokens :
    (name : Bytes) (x : TaskProtocolStats)
    → parse_response_fields false name (strings_of (counts_of x))
      ≡ parse_stats name (strings_of (counts_of x))
unfolding parse_response_fields strings_of
count_tokens name x = refl

metric_tokens :
    (name : Bytes) (x : TaskProtocolStats)
    → parse_response_fields false name (strings_of (counts_of x ++ times_of x))
      ≡ parse_stats name (strings_of (counts_of x ++ times_of x))
unfolding parse_response_fields strings_of
metric_tokens name x = refl

stats_read :
    (r : TaskProtocolResponse) (line : Bytes)
    → IsInRange r
    → format_by r stats_kind ≡ some line
    → parse_task_protocol_response false line ≡ parsed (carried r stats_kind)
unfolding format_by
stats_read r line v h =
    let (e, fits) = within_line_inv _ line h in
    let ns = counts_of r.stats in
    rw e (
      parse_named (codes "STATS") (strings_of ns) (unfold is_word all_bytes is_plain in refl)
        (all_words-strings_of ns) (omega (arith, length-strings_of ns)) fits
      ∙ count_tokens (codes "STATS") r.stats
      ∙ unfold parse_stats bytes_eq in
        ap (λ o. with_stats stats_kind (stats_of? o)) (parse_numbers-strings_of ns v.counts))

metrics_read :
    (r : TaskProtocolResponse) (line : Bytes)
    → IsInRange r
    → format_by r metrics_kind ≡ some line
    → parse_task_protocol_response false line ≡ parsed (carried r metrics_kind)
unfolding format_by
metrics_read r line v h =
    let (e, fits) = within_line_inv _ line h in
    let ns = counts_of r.stats ++ times_of r.stats in
    rw e (
      parse_named (codes "METRICS") (strings_of ns) (unfold is_word all_bytes is_plain in refl)
        (all_words-strings_of ns) (omega (arith, length-strings_of ns)) fits
      ∙ metric_tokens (codes "METRICS") r.stats
      ∙ unfold parse_stats bytes_eq in
        ap (λ o. with_stats metrics_kind (stats_of? o)) (parse_numbers-strings_of ns v.times))

format_by_read :
    (r : TaskProtocolResponse) (kind : TaskProtocolResponseKind) (line : Bytes)
    → IsInRange r
    → format_by r kind ≡ some line
    → parse_task_protocol_response false line ≡ parsed (carried r kind)
format_by_read r accepted_kind line v h = unfold format_by in accepted_read r line v h
format_by_read r state_kind line v h = state_read r line v h
format_by_read r error_kind line v h = error_read r line h
format_by_read r lease_kind line v h = unfold format_by in lease_read r line v h
format_by_read r empty_kind line v h = empty_read r line h
format_by_read r stats_kind line v h = stats_read r line v h
format_by_read r metrics_kind line v h = metrics_read r line v h

-- Let the members of a response fit their types, and let it be written as a line. Reading the line
-- succeeds, when the allocation does, and gives back the kind and every member that a response of
-- its kind carries; the other members have their defaults. In particular no line that is written
-- is too long to be read.
pub parse-format_task_protocol_response :
    (r : TaskProtocolResponse) (line : Bytes)
    → IsInRange r
    → format_task_protocol_response r ≡ some line
    → parse_task_protocol_response false line ≡ parsed (carried r r.kind)
unfolding format_task_protocol_response
parse-format_task_protocol_response r line v h = format_by_read r r.kind line v h
