-- ===== src/Secrets/Backend.antt =====
-- kernel/secrets.py: secret references and backends.
use context_control_plane.Base.{
  Char, code, String, ◌<>◌, Bool, true, false, not, ◌&&◌, ◌||◌, List, [], ◌∷◌, ◌==◌, leb, eqb,
  if◌then◌else◌,
}
use context_control_plane.Python.Error.{Result, ok, err, secret_error, ◌>>=◌}
use context_control_plane.Python.Text.{strip, lower, or_else, is_empty, repr, text_length}
use context_control_plane.Python.Value.{
  Value, bool, str, arr, obj, Items, nil, cons, Fields, end, is_blank, truthy, text_or, get_or, get,
}
use context_control_plane.Resource.{ResourceDocument, source_of}

pub data SecretBackendType : Type 0 where
  os_keychain vault encrypted_file memory custom : SecretBackendType

unfoldable pub backend_type_text : SecretBackendType → String
backend_type_text os_keychain = "os-keychain"
backend_type_text vault = "vault"
backend_type_text encrypted_file = "encrypted-file"
backend_type_text memory = "memory"
backend_type_text custom = "custom"

pub data SecretDurability : Type 0 where
  ephemeral local_persistent service_persistent : SecretDurability

unfoldable pub durability_text : SecretDurability → String
durability_text ephemeral = "ephemeral"
durability_text local_persistent = "local-persistent"
durability_text service_persistent = "service-persistent"

pub data MaterializationDelivery : Type 0 where
  ephemeral_handle temp_file : MaterializationDelivery

unfoldable pub delivery_text : MaterializationDelivery → String
delivery_text ephemeral_handle = "ephemeral-handle"
delivery_text temp_file = "temp-file"

-- The texts of an array that are not empty, each one stripped.
stripped_items : Items → List String
stripped_items nil = []
stripped_items (cons v xs) =
    let item = strip (text_or v "") in
    let rest = stripped_items xs in if is_empty item then rest else item ∷ rest

-- `_string_list`
unfoldable pub string_list : Value → Result (List String)
unfolding stripped_items is_blank
string_list (str s) = if is_empty s then ok [] else ok (s ∷ [])
string_list (arr xs) = ok (stripped_items xs)
string_list value =
    if is_blank value then ok [] else err (secret_error "expected a string or array of strings")

unfoldable pub is_alphanumeric : Char → Bool
is_alphanumeric c =
    let n = code c in
    (leb b'A' n && leb n b'Z') || (leb b'a' n && leb n b'z') || (leb b'0' n && leb n b'9')

unfoldable pub is_ref_char : Char → Bool
unfolding is_alphanumeric
is_ref_char c = let n = code c in is_alphanumeric c || eqb n b'.' || eqb n b'_' || eqb n b'-'

unfoldable pub all_ref_chars : String → Bool
unfolding is_ref_char
all_ref_chars String.[] = true
all_ref_chars (String.◌∷◌ c s) = if is_ref_char c then all_ref_chars s else false

-- `_SECRET_REF_PATTERN.fullmatch`: a letter or digit, and up to 127 letters, digits, dots, underscores
-- and dashes.
unfoldable pub is_secret_ref : String → Bool
unfolding all_ref_chars text_length
is_secret_ref String.[] = false
is_secret_ref (String.◌∷◌ c s) = is_alphanumeric c && all_ref_chars s && leb (text_length s) 127

-- `normalize_secret_ref`
unfoldable pub normalize_secret_ref : Value → String → Result String
normalize_secret_ref value field_name =
    let ref = strip (text_or value "") in
    if is_empty ref
    then err (secret_error (field_name <> " requires a non-empty string"))
    else if not (is_secret_ref ref)
    then err (
        secret_error (
          field_name
          <> " "
          <> repr ref
          <> " is invalid; use only letters, numbers, dot, underscore, or dash"))
    else ok ref

-- `_mapping`
unfoldable pub mapping : Value → String → Result Fields
unfolding is_blank
mapping (obj fs) field_name = ok fs
mapping value field_name =
    if is_blank value
    then ok end
    else err (secret_error (field_name <> " must be a JSON object when provided"))

-- `str(raw or default).strip().lower() or default`
unfoldable pub option_text : Value → String → String
option_text raw default = or_else (lower (strip (text_or raw default))) default

-- `_parse_backend_type`: a name that is none of the four is a custom backend.
unfoldable pub parse_backend_type : Value → SecretBackendType
parse_backend_type raw =
    let value = option_text raw "os-keychain" in
    if value == "os-keychain"
    then os_keychain
    else if value == "vault"
    then vault
    else if value == "encrypted-file"
    then encrypted_file
    else if value == "memory"
    then memory
    else custom

-- `_parse_durability`
unfoldable pub parse_durability : Value → Result SecretDurability
parse_durability raw =
    let value = option_text raw "local-persistent" in
    if value == "ephemeral"
    then ok ephemeral
    else if value == "local-persistent"
    then ok local_persistent
    else if value == "service-persistent"
    then ok service_persistent
    else err (secret_error ("unsupported secret backend durability " <> repr value))

-- `_parse_delivery`
unfoldable pub parse_delivery : Value → Result MaterializationDelivery
parse_delivery raw =
    let value = option_text raw "ephemeral-handle" in
    if value == "ephemeral-handle"
    then ok ephemeral_handle
    else if value == "temp-file"
    then ok temp_file
    else err (secret_error ("unsupported materialization delivery " <> repr value))

pub record SecretBackendProfile : Type 0 where
  pub name : String
  pub namespace : String
  pub backend_type : String
  pub durability : SecretDurability
  pub provider : String
  pub managed : Bool
  pub config : Fields
  pub source : String

-- `SecretBackendProfile.from_document`
unfoldable pub from_document : ResourceDocument → Result SecretBackendProfile
from_document document =
    if not (document.identifier.kind == "SecretBackend")
    then err (secret_error "expected a SecretBackend resource")
    else do
      let spec = document.spec
      durability ← parse_durability (get spec "durability")
      config ← mapping (get spec "config") "config"
      ok (record {
        name = document.identifier.name;
        namespace = document.identifier.namespace;
        backend_type = backend_type_text (parse_backend_type (get spec "type"));
        durability = durability;
        provider = strip (text_or (get_or spec "provider" (str "")) "");
        managed = truthy (get_or spec "managed" (bool false));
        config = config;
        source = source_of document;
      })
