-- ===== src/Lib.antt =====
-- CollectorSecurityAnalyzer: a verification library beside the Python sources.
--
-- The program collects security evidence from Windows endpoints and assesses it. The Assessment
-- Console (csa_console/) opens sessions for collectors, authenticates their submissions, stores what
-- it accepts and keeps an audit chain. The CVE assessment (cve/) decides which vulnerabilities affect
-- the installed software and how complete the search for them is, and the compliance engine
-- (compliance/) decides from evidence and rule mappings whether controls of a framework are met.
-- Framework packs (frameworks/) map technical findings to controls more cautiously, with their coverage.
-- These three read evidence that the Console has accepted; they share no state with it. Active validation
-- (active_validation/) plans and runs tests on a device, within a policy and an authorization.
--
-- Parts and files:
--   Common                lists, dictionaries, Boolean tests: what the parts share.
--   Console/Fault         the exceptions and states of csa_console/enums.py and the error classes.
--   Console/Action        a service call: files in, a result and the files out. A call that raises keeps
--                         what it wrote before; Console/Keeps and Console/Returns have the rules to
--                         reason about calls that keep a property, and about calls that returned.
--   Console/Paths         csa_console/storage.py: the names of files.
--   Console/Package       csa_console/package.py: _safe_members, over any archive format (ZipFile).
--   Console/Audit         csa_console/audit.py: append, verify, final_hash.
--   Console/State         csa_console/models.py and the files of an assessment as one record.
--   Console/Network       csa_console/network.py: source_is_allowed, validate_listen_address.
--   Console/Sessions      csa_console/sessions.py: create_assessment, open_session, load_session,
--                         set_session_status, verify_token, record_token_use, trust_collector_build,
--                         close_assessment.
--   Console/Nonces        csa_console/nonces.py: issue, consume.
--   Console/Grants        csa_console/trusted_grants.py: issue, reconcile, consume, challenge, authorize,
--                         mint_download, consume_download, over the rows of a session's database.
--   Console/Submission    csa_console/submission.py: request_nonce, accept and its stages,
--                         update_processing_state, remove_submission; csa_console/trust_receipts.py.
--   Console/Tests         the theorems at one small assessment.
--   Cve/Status            cve/status.py: assessment_status, normalize_metadata, aggregate_statuses.
--   Cve/Version           software/version.py: compare_applicability_versions, with the numeric scheme.
--   Cve/Applicability     cve/applicability.py: evaluate_applicability_result, _evaluate_node, _combine. The
--                         results of _evaluate_match are the leaves of a node.
--   Cve/Range             cve/applicability.py: _evaluate_version, for any comparison of versions.
--   Cve/Limiter           cve/rate_limiter.py: the sliding window of acquire.
--   Compliance/Selection  compliance/evaluator.py: the mapping of a rule to a control.
--   Compliance/Evaluator  compliance/evaluator.py: applicability, extraction, the decision on a control.
--   Compliance/Engine     compliance/engine.py: the summaries of frameworks and of a run.
--   Frameworks/Findings   frameworks/evaluator.py: _findings_by_rule.
--   Frameworks/Evaluator  frameworks/evaluator.py: evaluate_control.
--   Frameworks/Coverage   frameworks/coverage.py: calculate_coverage.
--   Frameworks/Evaluation frameworks/evaluator.py: evaluate.
--   Active/Model          active_validation/enums.py, models.py; Active/Registry: what registry.py ensures.
--   Active/Policy         active_validation/policy.py, over the JSON values of Active/Json.
--   Active/Selection      active_validation/planner.py: _resolve_selection; authorization.py: require_scope.
--   Active/Dependencies   active_validation/planner.py: _resolve_dependencies.
--   Active/Order          active_validation/planner.py: _topological_order.
--   Active/Planner        active_validation/planner.py: plan.
--   Active/Execution      active_validation/executor.py: execute, and the tracking of cleanup.py.
--   Active/Correlation    active_validation/correlation.py: correlate.
--   Active/Run            active_validation/engine.py: execute_active_validation.
--   Cve/Tests, Compliance/Tests, Frameworks/Tests, Active/Tests   the theorems at small inputs.
--
-- Parameters: hashing, UTF-8 and canonical JSON (Hashing), the module ipaddress (Ipaddress), the
-- package validator and the signatures of receipts (Services), the archive format (ZipFile). Clock
-- readings, random identifiers and keys are arguments, one for each reading of the code, but for
-- challenge and mint_download, whose readings of one call are one argument; times are exact
-- microseconds, also where the limiter reads floats, and a time in text is the time it denotes. The extractors of compliance evidence
-- (Sources), the version schemes other than the numeric one and the rounding of percentages are
-- parameters too. What the worker processes of active validation do is a parameter of a run
-- (Setting).
--
-- Loops are structural on a list or a text, but for two of the planner, which take fuel: the expansion
-- of dependencies pops each selected or registered validator at most once, and a visit for the order
-- goes no deeper than the selection has validators. Active/Planner/Ends is about that.
--
-- A directory of an assessment is a dictionary keyed by the identifier in its file names. Locks are
-- left out: a call runs alone, as the code's locks arrange for calls in one process. Errors of the
-- operating system other than a missing file, and of sqlite other than a violated key, are not
-- modelled. Rendering, HTTP, command lines and the PowerShell collectors are not modelled.
pub mod Common
pub mod Console
pub mod Cve
pub mod Compliance
pub mod Active
pub mod Frameworks
