-- ===== src/Protocol.antt =====
-- The text protocol of tasks (include/glimmer/control/task_protocol.h and
-- src/control/task_protocol.cc): its data, the tokens of a line and its numbers. Text is a list of
-- bytes. The numbers of the C++ library, `std::to_string` and `std::from_chars`, are written out.
pub mod Request
pub mod Response
pub mod Numbers
pub mod Decimals
pub mod Tokens
pub mod Carried
pub mod Admission
pub mod Fields
pub mod RoundTrip
pub mod Examples
use Prim.Native.Char.{code}
use Prim.Native.String.{String}
use glimmer.Prelude.{
  ℕ, zero, suc, ◌+◌, ◌-◌, ◌*◌, ◌/◌, ◌%◌, Bool, true, false, not, ◌&&◌, ◌||◌, Option, none, some,
  List, [], ◌∷◌, ◌++◌, ◌==◌, ltb, leb, if◌then◌else◌, length, take,
}

abbrev pub Bytes : Type 0
Bytes = List ℕ

abbrev pub codes : String → Bytes
codes String.[] = []
codes (String.◌∷◌ c s) = code c ∷ codes s

unfoldable pub bytes_eq : Bytes → Bytes → Bool
bytes_eq [] [] = true
bytes_eq [] (y ∷ ys) = false
bytes_eq (x ∷ xs) [] = false
bytes_eq (x ∷ xs) (y ∷ ys) = x == y && bytes_eq xs ys

abbrev pub task_protocol_version : Bytes
task_protocol_version = codes "GLIMMER_TASK_V1"

abbrev pub task_protocol_max_line_bytes : ℕ
task_protocol_max_line_bytes = 256

abbrev pub task_protocol_max_tenant_id_bytes : ℕ
task_protocol_max_tenant_id_bytes = 96

abbrev pub max_tokens : ℕ
max_tokens = 24

abbrev pub max_wait_timeout_ms : ℕ
max_wait_timeout_ms = 60000

pub data TaskProtocolOperation : Type 0 where
  submit acquire cancel query claim wait heartbeat complete fail stats metrics :
      TaskProtocolOperation

-- The value `kNone` is the success of a parse result.
pub data TaskProtocolParseError : Type 0 where
  empty line_too_long unsupported_version malformed invalid_tenant invalid_value internal_error :
      TaskProtocolParseError

pub data ParseResult (A : Type 0) : Type 0 where
  parsed : A → ParseResult A
  refused : TaskProtocolParseError → ParseResult A

pub record TaskAdmissionRequest : Type 0 where
  pub tenant_id : Bytes
  pub memory_bytes : ℕ
  pub weight : ℕ
  pub work_units : ℕ
  pub priority : ℕ

pub record TaskProtocolRequest : Type 0 where
  pub operation : TaskProtocolOperation
  pub admission : TaskAdmissionRequest
  pub task_id : ℕ
  pub wait_timeout_ms : ℕ

pub record TokenList : Type 0 where
  pub values : List Bytes
  pub overflow : Bool

unfoldable pub is_separator : ℕ → Bool
is_separator c = c == 32 || c == 9

-- A token that has begun ends.
unfoldable pub flush : Bytes → List Bytes → List Bytes
flush [] rest = rest
flush (c ∷ cs) rest = (c ∷ cs) ∷ rest

-- The tokens of the rest of a line, `token` being what was read of the next one.
unfoldable pub tokens_of : Bytes → Bytes → List Bytes
tokens_of [] token = flush token []
tokens_of (c ∷ cs) token =
    if is_separator c then flush token (tokens_of cs []) else tokens_of cs (token ++ c ∷ [])

unfoldable pub split_tokens : Bytes → TokenList
unfolding tokens_of
split_tokens line = record {
  values = take max_tokens (tokens_of line []);
  overflow = ltb max_tokens (length (tokens_of line []));
}

-- `back() == c` and `remove_suffix(1)`
unfoldable pub strip_last : ℕ → Bytes → Bytes
strip_last c [] = []
strip_last c (x ∷ []) = if x == c then [] else x ∷ []
strip_last c (x ∷ y ∷ ys) = x ∷ strip_last c (y ∷ ys)

unfoldable pub is_ascii_alphanumeric : ℕ → Bool
is_ascii_alphanumeric c =
    (leb 97 c && leb c 122) || (leb 65 c && leb c 90) || (leb 48 c && leb c 57)

-- A letter, a digit, `.`, `_` or `-`.
unfoldable pub is_tenant_byte : ℕ → Bool
unfolding is_ascii_alphanumeric
is_tenant_byte c = is_ascii_alphanumeric c || c == 46 || c == 95 || c == 45

unfoldable pub all_bytes : (ℕ → Bool) → Bytes → Bool
all_bytes p [] = true
all_bytes p (c ∷ cs) = p c && all_bytes p cs

unfoldable pub is_valid_tenant_id : Bytes → Bool
unfolding all_bytes is_tenant_byte
is_valid_tenant_id tenant_id =
    not (length tenant_id == 0)
    && leb (length tenant_id) task_protocol_max_tenant_id_bytes
    && all_bytes is_tenant_byte tenant_id

-- Digits only, and a value of at most `max`.
unfoldable pub scan_digits : ℕ → Bytes → ℕ → Option ℕ
scan_digits max [] n = some n
scan_digits max (c ∷ cs) n =
    let rest = scan_digits max cs (n * 10 + (c - 48)) in
    if ltb c 48 || ltb 57 c || ltb max (n * 10 + (c - 48)) then none else rest

unfoldable pub parse_unsigned_integer : ℕ → Bytes → Option ℕ
unfolding scan_digits
parse_unsigned_integer max [] = none
parse_unsigned_integer max (c ∷ cs) = scan_digits max (c ∷ cs) 0

unfoldable pub if_positive : Option ℕ → Option ℕ
if_positive none = none
if_positive (some n) = if n == 0 then none else some n

unfoldable pub parse_positive_integer : ℕ → Bytes → Option ℕ
unfolding parse_unsigned_integer if_positive
parse_positive_integer max token = if_positive (parse_unsigned_integer max token)

-- The digits of `n` before `out`; twenty divisions are enough for 64 bits.
unfoldable pub digits : ℕ → ℕ → Bytes → Bytes
digits zero n out = out
digits (suc fuel) n out =
    let rest = digits fuel (n / 10) ((48 + n % 10) ∷ out) in if n == 0 then out else rest

unfoldable pub to_string_within : ℕ → ℕ → Bytes
unfolding digits
to_string_within fuel n = if n == 0 then 48 ∷ [] else digits fuel n []

unfoldable pub to_string : ℕ → Bytes
unfolding to_string_within
to_string n = to_string_within 20 n

-- Tokens with one blank between them, and the end of the line.
unfoldable pub spaced : List Bytes → Bytes
spaced [] = []
spaced (t ∷ []) = t
spaced (t ∷ u ∷ ts) = t ++ 32 ∷ spaced (u ∷ ts)

abbrev pub line_of : List Bytes → Bytes
line_of ts = spaced (task_protocol_version ∷ ts) ++ 10 ∷ []
