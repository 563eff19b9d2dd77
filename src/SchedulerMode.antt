-- ===== src/SchedulerMode.antt =====
-- The scheduler's mode and its names (include/glimmer/core/scheduler_mode.h and
-- src/core/scheduler_mode.cc). A mode is one of the enumerators.
use text.Mathlib.Text.{◌==◌ as str_eq}
use glimmer.Prelude.{Option, none, some, String, ◌≡◌, refl, if◌then◌else◌, ◌↔◌, arith}
use text.Mathlib.TextEquality.{eq_iff}

pub data SchedulerMode : Type 0 where
  off observe enforce : SchedulerMode

unfoldable pub parse_scheduler_mode : String → Option SchedulerMode
parse_scheduler_mode value =
    if str_eq value "off"
    then some off
    else if str_eq value "observe"
    then some observe
    else if str_eq value "enforce"
    then some enforce
    else none

unfoldable pub scheduler_mode_name : SchedulerMode → String
scheduler_mode_name off = "off"
scheduler_mode_name observe = "observe"
scheduler_mode_name enforce = "enforce"

-- Parsing and naming are inverse: a text parses as a mode exactly when it is that mode's name.
pub parse_scheduler_mode-eq-name :
    (value : String) (mode : SchedulerMode)
    → (parse_scheduler_mode value ≡ some mode) ↔ (value ≡ scheduler_mode_name mode)
unfolding parse_scheduler_mode scheduler_mode_name
parse_scheduler_mode-eq-name value mode = (
  λ h. ground (arith, eq_iff value "off", eq_iff value "observe", eq_iff value "enforce"),
  λ e. named mode e,
)
  where
    named :
        (m : SchedulerMode) → value ≡ scheduler_mode_name m → parse_scheduler_mode value ≡ some m
    named off e = rw e refl
    named observe e = rw e refl
    named enforce e = rw e refl
