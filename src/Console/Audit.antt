-- ===== src/Console/Audit.antt =====
-- The tamper-evident audit chain of csa_console/audit.py, on the parsed lines of its log file.
pub mod Chain
use Prim.Native.String.{◌++◌ as text_append}
use collector_security_analy.Common.{
  ℕ, ◌+◌, String, Bool, true, false, ◌||◌, Option, none, some, List, [], ◌∷◌, ◌++◌, any, contains,
  str_eq, ◌==◌, if◌then◌else◌,
}
use collector_security_analy.Console.Paths.{codes}
use collector_security_analy.Common.Dict.{Dict}
use collector_security_analy.Console.Fault.{Fault}
use collector_security_analy.Console.Action.{Result, ok, err}

-- A JSON value of an entry's details.
pub data Detail : Type 0 where
  text : String → Detail
  number : ℕ → Detail
  flag : Bool → Detail
  missing : Detail

-- An entry without its hash.
pub record Body : Type 0 where
  pub timestamp : ℕ
  pub event_type : String
  pub details : Dict Detail
  pub previous_entry_hash : Option String

pub record Entry : Type 0 where
  pub body : Body
  pub entry_hash : Option String

-- A line of the log: `malformed` is one that `json.loads` refuses.
pub data Line : Type 0 where
  parsed : Entry → Line
  malformed : Line

-- The log file; `none` is a file that does not exist.
abbrev pub LogFile : Type 0
LogFile = Option (List Line)

-- What the code takes from hashlib and json: the hexadecimal digest, UTF-8, the canonical bytes of
-- an entry's body.
pub record Hashing : Type 0 where
  pub sha256 : List ℕ → String
  pub utf8 : String → List ℕ
  pub canonical_bytes : Body → List ℕ

-- The entry whose hash the next one names.
pub data Refusal : Type 0 where
  missing_log empty_log : Refusal
  invalid_json link_mismatch hash_mismatch : ℕ → Refusal

pub data Verdict : Type 0 where
  verified : Option String → ℕ → Verdict
  refused : Refusal → Verdict

-- `FORBIDDEN_KEYS`
abbrev pub forbidden_keys : List String
forbidden_keys =
    "evidence" ∷ "payload" ∷ "raw" ∷ "password" ∷ "token" ∷ "secret" ∷ "privateKey" ∷ []

-- `self.FORBIDDEN_KEYS & set(safe_details)`
unfoldable pub is_sensitive : Dict Detail → Bool
is_sensitive = any (λ e. contains e.0 forbidden_keys)

-- `str(… or "") or None`
unfoldable pub nonempty : Option String → Option String
nonempty none = none
nonempty (some h) = if str_eq h "" then none else some h

unfoldable pub line_hash : Line → Result (Option String)
unfolding nonempty
line_hash (parsed e) = ok (nonempty e.entry_hash)
line_hash malformed = err Fault.bad_json

-- The hash of the last of `lines`.
unfoldable pub last_hash : List Line → Result (Option String)
unfolding line_hash
last_hash [] = ok none
last_hash (l ∷ []) = line_hash l
last_hash (l ∷ m ∷ ls) = last_hash (m ∷ ls)

unfoldable pub final_hash : LogFile → Result (Option String)
unfolding last_hash
final_hash none = ok none
final_hash (some ls) = last_hash ls

abbrev pub lines_of : LogFile → List Line
lines_of none = []
lines_of (some ls) = ls

abbrev pub new_body : ℕ → String → Dict Detail → Option String → Body
new_body now event details previous = record {
  timestamp = now;
  event_type = event;
  details = details;
  previous_entry_hash = previous;
}

-- `==` on a hash that may be `None`
abbrev pub opt_eq : Option String → Option String → Bool
opt_eq none none = true
opt_eq (some a) (some b) = str_eq a b
opt_eq _ _ = false

-- The separators that `str.splitlines` knows and that JSON with `ensure_ascii=False` leaves in a text:
-- U+0085, U+2028 and U+2029
abbrev pub is_line_break : ℕ → Bool
is_line_break c = c == 133 || (c == 8232 || c == 8233)

abbrev pub text_breaks : String → Bool
text_breaks t = any is_line_break (codes t)

abbrev pub detail_breaks : Detail → Bool
detail_breaks (text t) = text_breaks t
detail_breaks _ = false

abbrev pub hash_breaks : Option String → Bool
hash_breaks none = false
hash_breaks (some t) = text_breaks t

-- Whether a text of the entry splits its line; the hash of the entry itself is hexadecimal.
abbrev pub body_breaks : Body → Bool
body_breaks b =
    text_breaks b.event_type
    || (any (λ e. text_breaks e.0 || detail_breaks e.1) b.details
        || hash_breaks b.previous_entry_hash)

module _ ⦃h : Hashing⦄ where
  -- `sha256_bytes`
  unfoldable pub sha256_bytes : List ℕ → String
  sha256_bytes bs = text_append "sha256:" (h.sha256 bs)

  -- `sha256_value` of an entry without its hash
  unfoldable pub entry_digest : Body → String
  unfolding sha256_bytes
  entry_digest b = sha256_bytes (h.canonical_bytes b)

  abbrev pub sealed : Body → Entry
  sealed b = record { body = b; entry_hash = some (entry_digest b) }

  -- What `splitlines` reads of the line of an entry. A line that splits leaves a first and a last part, which
  -- are no JSON, as the break is inside a text; no reader comes to parts between them.
  abbrev pub lines_read : Body → List Line
  lines_read b = if body_breaks b then malformed ∷ malformed ∷ [] else parsed (sealed b) ∷ []

  abbrev pub write_entry : LogFile → Body → Result String × LogFile
  write_entry f b = (ok (entry_digest b), some (lines_of f ++ lines_read b))

  abbrev pub append_after :
      Result (Option String) → ℕ → String → Dict Detail → LogFile → Result String × LogFile
  append_after (err e) now event details f = (err e, f)
  append_after (ok previous) now event details f =
      write_entry f (new_body now event details previous)

  -- `ConsoleAuditLog.append`
  unfoldable pub append : ℕ → String → Dict Detail → LogFile → Result String × LogFile
  append now event details f =
      if is_sensitive details
      then (err Fault.sensitive_details, f)
      else append_after (final_hash f) now event details f

  -- The loop of `verify` over the lines that are left, with the count and hash so far.
  unfoldable pub verify_lines : List Line → ℕ → Option String → Verdict
  verify_lines [] count previous = verified previous count
  verify_lines (malformed ∷ ls) count previous = refused (invalid_json (count + 1))
  verify_lines (parsed e ∷ ls) count previous =
      let rest = verify_lines ls (count + 1) e.entry_hash in
      if opt_eq e.body.previous_entry_hash previous
      then (if opt_eq e.entry_hash (some (entry_digest e.body))
          then rest
          else refused (hash_mismatch (count + 1)))
      else refused (link_mismatch (count + 1))

  -- `ConsoleAuditLog.verify`; the check for an empty log follows the loop, which sees no line.
  unfoldable pub verify : LogFile → Verdict
  unfolding verify_lines
  verify none = refused missing_log
  verify (some []) = refused empty_log
  verify (some (l ∷ ls)) = verify_lines (l ∷ ls) 0 none
