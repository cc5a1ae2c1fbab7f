-- ===== src/Redaction.antt =====
-- The redaction of kernel/secrets.py and of kernel/tracing.py.
pub mod Clean
pub mod Allowlist
pub mod Traces
use context_control_plane.Base.{
  ℕ, ◌+◌, String, Bool, true, false, ◌&&◌, ◌||◌, List, [], ◌∷◌, ◌++◌, ◌==◌, contains, ltb, leb, eqb,
  if◌then◌else◌,
}
use context_control_plane.Python.Text.{strip, lower, is_empty, has_part, text_length, is_space_code}
use context_control_plane.Python.Value.{Value, str, arr, obj, Items, nil, cons, Fields, end, field}
use context_control_plane.Python.Pattern.{
  Atom, one, many, boundary, is_word, pattern_search, literal, times, at_least,
}

abbrev pub safe_metadata_keys : List String
safe_metadata_keys = "secretrefcount" ∷ "secretrefnames" ∷ "secretrefs" ∷ []

-- `_SENSITIVE_KEY_PARTS` of kernel/secrets.py
abbrev pub secret_key_parts : List String
secret_key_parts =
    "token" ∷ "secret" ∷ "password" ∷ "passphrase" ∷ "cookie" ∷ "authorization" ∷ "api_key"
    ∷ "apikey" ∷ "access_key" ∷ "encryption_key" ∷ "session" ∷ "private_key" ∷ "client_secret" ∷ []

-- `_SENSITIVE_KEY_PARTS` of kernel/tracing.py
abbrev pub trace_key_parts : List String
trace_key_parts =
    "token" ∷ "secret" ∷ "password" ∷ "cookie" ∷ "authorization" ∷ "api_key" ∷ "apikey"
    ∷ "access_key" ∷ "session" ∷ []

-- `any(part in text for part in parts)`
unfoldable pub any_part : List String → String → Bool
any_part [] s = false
any_part (part ∷ parts) s = if has_part part s then true else any_part parts s

-- The test of `is_sensitive_key` and of `_looks_sensitive`.
unfoldable pub sensitive : List String → String → Bool
unfolding any_part
sensitive parts key =
    let lowered = lower (strip key) in
    if contains safe_metadata_keys lowered then false else any_part parts lowered

-- `is_sensitive_key`
unfoldable pub is_sensitive_key : String → Bool
unfolding sensitive
is_sensitive_key key = sensitive secret_key_parts key

-- `_looks_sensitive`
unfoldable pub looks_sensitive : String → Bool
unfolding sensitive
looks_sensitive key = sensitive trace_key_parts key

is_upper_digit : ℕ → Bool
is_upper_digit n = (leb b'A' n && leb n b'Z') || (leb b'0' n && leb n b'9')

is_upper_digit_space : ℕ → Bool
unfolding is_upper_digit
is_upper_digit_space n = is_upper_digit n || eqb n 32

is_token_char : ℕ → Bool
unfolding is_word
is_token_char n = is_word n || eqb n b'.' || eqb n b'-'

is_dash_word : ℕ → Bool
unfolding is_word
is_dash_word n = is_word n || eqb n b'-'

-- A letter of either case, given the lower one.
either_case : ℕ → ℕ → Bool
either_case small n = eqb n small || eqb (n + 32) small

key_prefix : String → List Atom
unfolding literal at_least is_word
key_prefix prefix =
    (boundary ∷ literal prefix) ++ (literal "_" ++ (at_least 10 is_word ++ (boundary ∷ [])))

-- `_SECRET_VALUE_PATTERNS`, the alternatives of the second one apart.
unfoldable pub secret_value_patterns : List (List Atom)
unfolding key_prefix is_upper_digit is_upper_digit_space is_token_char is_dash_word is_space_code
    either_case times
secret_value_patterns =
    (literal "-----BEGIN " ++ (many is_upper_digit_space ∷ literal "PRIVATE KEY-----"))
    ∷ key_prefix "ghp"
    ∷ key_prefix "gho"
    ∷ key_prefix "ghu"
    ∷ key_prefix "ghs"
    ∷ key_prefix "github_pat"
    ∷ ((boundary ∷ literal "AKIA") ++ (times 16 is_upper_digit ++ (boundary ∷ [])))
    ∷ ((boundary
          ∷ one (either_case b'b')
          ∷ one (either_case b'e')
          ∷ one (either_case b'a')
          ∷ one (either_case b'r')
          ∷ one (either_case b'e')
          ∷ one (either_case b'r')
          ∷ [])
        ++ (at_least 1 is_space_code ++ (at_least 12 is_token_char ++ (boundary ∷ []))))
    ∷ ((boundary ∷ literal "eyJ")
        ++ (at_least 1 is_dash_word
            ++ (literal "."
                ++ (at_least 1 is_token_char
                    ++ (literal "." ++ (at_least 1 is_token_char ++ (boundary ∷ [])))))))
    ∷ []

unfoldable pub any_pattern : List (List Atom) → String → Bool
unfolding pattern_search
any_pattern [] s = false
any_pattern (p ∷ ps) s = if pattern_search p s then true else any_pattern ps s

-- `looks_like_secret_value` of a text
unfoldable pub looks_like_secret_value : String → Bool
unfolding any_pattern secret_value_patterns
looks_like_secret_value value =
    let s = strip value in
    if ltb (text_length s) 12 then false else any_pattern secret_value_patterns s

abbrev pub redacted : Value
redacted = str "[redacted]"

-- `field_name and is_sensitive_key(field_name)`
unfoldable pub names_secret : (String → Bool) → String → Bool
names_secret test field_name = if is_empty field_name then false else test field_name

-- `sanitize_secret_value`, the name of the field first.
unfoldable mutual
  unfolding names_secret

  pub sanitize_secret_value : String → Value → Value
  sanitize_secret_value field_name (obj fs) =
      let clean = sanitize_secret_fields fs in
      if names_secret is_sensitive_key field_name then redacted else obj clean
  sanitize_secret_value field_name (arr xs) =
      let clean = sanitize_secret_items xs in
      if names_secret is_sensitive_key field_name then redacted else arr clean
  sanitize_secret_value field_name (str s) =
      if names_secret is_sensitive_key field_name
      then redacted
      else if looks_like_secret_value s
      then redacted
      else str s
  sanitize_secret_value field_name value =
      if names_secret is_sensitive_key field_name then redacted else value

  pub sanitize_secret_items : Items → Items
  sanitize_secret_items nil = nil
  sanitize_secret_items (cons v xs) = cons (sanitize_secret_value "" v) (sanitize_secret_items xs)

  pub sanitize_secret_fields : Fields → Fields
  sanitize_secret_fields end = end
  sanitize_secret_fields (field k v fs) =
      field k (sanitize_secret_value k v) (sanitize_secret_fields fs)

-- `sanitize_trace_value`
unfoldable mutual
  unfolding names_secret

  pub sanitize_trace_value : String → Value → Value
  sanitize_trace_value field_name (obj fs) =
      let clean = sanitize_trace_fields fs in
      if names_secret looks_sensitive field_name then redacted else obj clean
  sanitize_trace_value field_name (arr xs) =
      let clean = sanitize_trace_items xs in
      if names_secret looks_sensitive field_name then redacted else arr clean
  sanitize_trace_value field_name value =
      if names_secret looks_sensitive field_name then redacted else value

  pub sanitize_trace_items : Items → Items
  sanitize_trace_items nil = nil
  sanitize_trace_items (cons v xs) = cons (sanitize_trace_value "" v) (sanitize_trace_items xs)

  pub sanitize_trace_fields : Fields → Fields
  sanitize_trace_fields end = end
  sanitize_trace_fields (field k v fs) =
      field k (sanitize_trace_value k v) (sanitize_trace_fields fs)

-- The keys that the list names, in the order of the payload.
unfoldable pub keep_allowed : List String → Fields → Fields
keep_allowed allowed end = end
keep_allowed allowed (field k v fs) =
    let rest = keep_allowed allowed fs in if contains allowed k then field k v rest else rest

unfoldable pub nonempty_texts : List String → List String
nonempty_texts [] = []
nonempty_texts (s ∷ ss) = let rest = nonempty_texts ss in if is_empty s then rest else s ∷ rest

-- `apply_response_allowlist`: an empty list lets all through.
unfoldable pub apply_response_allowlist : List String → Fields → Fields
unfolding keep_allowed nonempty_texts
apply_response_allowlist [] payload = payload
apply_response_allowlist (f ∷ fs) payload = keep_allowed (nonempty_texts (f ∷ fs)) payload

-- `sanitize_adapter_payload`
unfoldable pub sanitize_adapter_payload : List String → Fields → Fields
unfolding apply_response_allowlist sanitize_secret_fields
sanitize_adapter_payload allow_fields payload =
    sanitize_secret_fields (apply_response_allowlist allow_fields payload)

-- `_count_redacted_values`
unfoldable mutual
  pub count_redacted_values : Value → ℕ
  count_redacted_values (obj fs) = count_redacted_fields fs
  count_redacted_values (arr xs) = count_redacted_items xs
  count_redacted_values (str s) = if s == "[redacted]" then 1 else 0
  count_redacted_values _ = 0

  pub count_redacted_items : Items → ℕ
  count_redacted_items nil = 0
  count_redacted_items (cons v xs) = count_redacted_values v + count_redacted_items xs

  pub count_redacted_fields : Fields → ℕ
  count_redacted_fields end = 0
  count_redacted_fields (field k v fs) = count_redacted_values v + count_redacted_fields fs
