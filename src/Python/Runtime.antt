-- ===== src/Python/Runtime.antt =====
-- What the sources ask of the machine and of the cryptographic and calendar libraries.
use context_control_plane.Base.{ℕ, zero, suc, ◌-◌, String, ◌<>◌, Option, if◌then◌else◌}
use context_control_plane.Python.Error.{Result}
use context_control_plane.Python.Text.{starts_with, text_length}

pub record Runtime : Type 0 where
  -- `os.environ`
  pub environ : String → Option String
  -- `Path(p).expanduser()`
  pub expand_user : String → String
  -- `Path(p).read_text(encoding="utf-8")`; `none` where the file does not exist
  pub read_text : String → Option String
  -- `datetime.now(timezone.utc)`, in microseconds from a fixed day
  pub now : ℕ
  -- `isoformat()` in UTC of a time in whole seconds
  pub isoformat : ℕ → String
  -- `datetime.fromisoformat(s).astimezone(timezone.utc)`, in microseconds
  pub fromisoformat : String → Result ℕ
  -- `hashlib.sha256(s.encode("utf-8")).hexdigest()`
  pub sha256_hex : String → String
  -- `hmac.new(key, payload, hashlib.sha256).hexdigest()`
  pub hmac_hex : String → String → String
  -- `uuid4().hex[:12]`; the number tells the calls of one operation apart
  pub uuid_hex : ℕ → String

-- The round after `skip` characters of a replaced part have been passed over.
replace_loop : String → String → ℕ → String → String
replace_loop old new skip String.[] = ""
replace_loop old new (suc skip) (String.◌∷◌ c s) = replace_loop old new skip s
replace_loop old new zero (String.◌∷◌ c s) =
    let found = new <> replace_loop old new (text_length old - 1) s in
    let kept = String.◌∷◌ c (replace_loop old new zero s) in
    if starts_with (String.◌∷◌ c s) old then found else kept

-- `s.replace(old, new)`, for an `old` that is not empty.
unfoldable pub replace : String → String → String → String
unfolding replace_loop starts_with text_length
replace old new s = replace_loop old new zero s
