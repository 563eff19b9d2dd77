-- ===== src/Protocol/Examples.antt =====
-- The theorems on src/control/task_protocol.cc at concrete lines.
use glimmer.Prelude.{◌≡◌, refl, true, false, none, some, List, [], ◌∷◌, ◌++◌, arith, u32_max}
use glimmer.Protocol.{
  Bytes, codes, parsed, submit, TaskProtocolRequest, split_tokens, tokens_of, flush, is_separator,
  strip_last, spaced, all_bytes, is_valid_tenant_id, is_tenant_byte, is_ascii_alphanumeric,
  parse_unsigned_integer, to_string, to_string_within, digits,
}
use glimmer.Protocol.Request.{parse_task_protocol_request, operation_request}
use glimmer.Protocol.Request.Format.{format_task_protocol_request, fields_of, admission_fields}
use glimmer.Protocol.Numbers.{power, is_digit}
use glimmer.Protocol.Decimals.{value_of, parse_unsigned_integer-value}
use glimmer.Protocol.Tokens.{split_tokens-spaced, all_words, is_word, is_plain}
use glimmer.Protocol.Carried.{IsInRange}
use glimmer.Protocol.RoundTrip.{parse-format_task_protocol_request}
use glimmer.Protocol.Response.{TaskProtocolResponse, lease_kind, response_of}
use glimmer.Protocol.Response.Parse.{parse_task_protocol_response}
use glimmer.Protocol.Response.Format.{format_task_protocol_response, format_by, format_lease}
use glimmer.Protocol.Response.Carried as Reply
use glimmer.Protocol.Response.RoundTrip.{parse-format_task_protocol_response}

parse_unsigned_integer-value_example :
    parse_unsigned_integer u32_max (codes "4294967295") ≡ some 4294967295
unfolding value_of all_bytes is_digit power
parse_unsigned_integer-value_example = parse_unsigned_integer-value u32_max (codes "4294967295")

one_too_many : parse_unsigned_integer u32_max (codes "4294967296") ≡ none
unfolding value_of all_bytes is_digit power
one_too_many = parse_unsigned_integer-value u32_max (codes "4294967296")

not_digits : parse_unsigned_integer u32_max (codes "12a") ≡ none
unfolding value_of all_bytes is_digit power
not_digits = parse_unsigned_integer-value u32_max (codes "12a")

abbrev three_words : List Bytes
three_words = codes "CLAIM" ∷ codes "17" ∷ codes "x" ∷ []

three_words_are_words : all_words three_words ≡ true
unfolding all_words is_word all_bytes is_plain
three_words_are_words = refl

split_tokens-spaced_example :
    split_tokens (strip_last 13 (strip_last 10 (spaced three_words ++ 10 ∷ [])))
    ≡ record { values = three_words; overflow = false }
split_tokens-spaced_example = split_tokens-spaced three_words three_words_are_words (omega arith)

-- Blanks at the ends, a tabulator and a carriage return do not matter.
loose_line :
    split_tokens
      (strip_last 13 (strip_last 10 (codes "  QUERY" ++ 9 ∷ 9 ∷ codes "17 " ++ 13 ∷ 10 ∷ [])))
    ≡ record { values = codes "QUERY" ∷ codes "17" ∷ []; overflow = false }
unfolding split_tokens tokens_of flush is_separator strip_last
loose_line = refl

abbrev sent : TaskProtocolRequest
sent = record (operation_request submit) {
  admission = record {
    tenant_id = codes "team-a";
    memory_bytes = 4096;
    weight = 2;
    work_units = 7;
    priority = 1;
  };
}

abbrev sent_line : Bytes
sent_line = codes "GLIMMER_TASK_V1 SUBMIT team-a 4096 2 7 1" ++ 10 ∷ []

sent_as : format_task_protocol_request sent ≡ some sent_line
unfolding format_task_protocol_request fields_of admission_fields is_valid_tenant_id all_bytes
    is_tenant_byte is_ascii_alphanumeric to_string to_string_within digits spaced
sent_as = refl

sent-IsInRange : IsInRange sent
sent-IsInRange = omega arith

parse-format_task_protocol_request_example :
    parse_task_protocol_request false sent_line ≡ parsed sent
parse-format_task_protocol_request_example =
    parse-format_task_protocol_request sent sent_line sent-IsInRange sent_as

abbrev lease : TaskProtocolResponse
lease = record (response_of lease_kind) {
  task_id = 17;
  tenant_id = codes "team-a";
  memory_bytes = 4096;
  weight = 2;
  work_units = 7;
}

abbrev lease_line : Bytes
lease_line = codes "GLIMMER_TASK_V1 LEASE 17 team-a 4096 2 7" ++ 10 ∷ []

lease_as : format_task_protocol_response lease ≡ some lease_line
unfolding format_task_protocol_response format_by format_lease is_valid_tenant_id all_bytes
    is_tenant_byte is_ascii_alphanumeric to_string to_string_within digits spaced
lease_as = refl

lease-IsInRange : Reply.IsInRange lease
unfolding Reply.all_small
lease-IsInRange = record {
  id = omega arith;
  memory = omega arith;
  weight = omega arith;
  units = omega arith;
  counts = refl;
  times = refl;
}

parse-format_task_protocol_response_example :
    parse_task_protocol_response false lease_line ≡ parsed lease
parse-format_task_protocol_response_example =
    parse-format_task_protocol_response lease lease_line lease-IsInRange lease_as
