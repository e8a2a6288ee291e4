-- ===== src/Active/Correlation.antt =====
-- active_validation/correlation.py: `correlate`.
use collector_security_analy.Common.{
  String, Bool, true, false, not, ◌&&◌, ◌||◌, Option, none, some, str_eq, if◌then◌else◌,
}
use collector_security_analy.Active.Execution.{Status, passed, failed, error, timed_out}

-- `CorrelatedRuleStatus`
pub data Correlation : Type 0 where
  confirmed_pass confirmed_fail pass_not_validated fail_not_validated configuration_runtime_mismatch
        active_only_pass active_only_fail inconclusive not_evaluated :
      Correlation

abbrev pub is_passed : Status → Bool
is_passed s = elim s [ passed ↦ true | _ ↦ false ]

abbrev pub is_failed : Status → Bool
is_failed s = elim s [ failed ↦ true | _ ↦ false ]

-- `NOT_VALIDATED`
abbrev pub is_not_validated : Status → Bool
is_not_validated s = not (is_passed s) && not (is_failed s)

abbrev is_open : Status → Bool
is_open s = elim s [ Status.inconclusive ↦ true | error ↦ true | timed_out ↦ true | _ ↦ false ]

abbrev pub is_pass : Option String → Bool
is_pass none = false
is_pass (some t) = str_eq t "PASS"

abbrev pub is_fail : Option String → Bool
is_fail none = false
is_fail (some t) = str_eq t "FAIL" || str_eq t "WARNING"

abbrev pub is_absent : Option String → Bool
is_absent none = true
is_absent (some _) = false

-- `passive_status.upper() if passive_status else None`
abbrev pub passive_of : (String → String) → Option String → Option String
passive_of upper none = none
passive_of upper (some t) = if str_eq t "" then none else some (upper t)

unfoldable pub correlation : Option String → Status → Correlation
correlation passive s =
    if is_pass passive && is_passed s
    then confirmed_pass
    else if is_fail passive && is_failed s
    then confirmed_fail
    else if (is_pass passive || is_fail passive) && (is_passed s || is_failed s)
    then configuration_runtime_mismatch
    else if is_absent passive && is_passed s
    then active_only_pass
    else if is_absent passive && is_failed s
    then active_only_fail
    else if is_pass passive && is_not_validated s
    then pass_not_validated
    else if is_fail passive && is_not_validated s
    then fail_not_validated
    else if is_open s
    then Correlation.inconclusive
    else not_evaluated

-- `correlate`
unfoldable pub correlate : (String → String) → Option String → Status → Correlation
unfolding correlation
correlate upper passive s = correlation (passive_of upper passive) s
