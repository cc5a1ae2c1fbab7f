-- ===== src/Examples/Machine.antt =====
-- A machine with a signing key, on which all that approvals ask of the libraries holds.
use context_control_plane.Base.{
  ℕ, zero, suc, ◌-◌, ◌*◌, ◌/◌, String, ◌≡◌, refl, ap, false, true, ◌==◌, some, none, arith,
  if◌then◌else◌,
}
use context_control_plane.Python.Error.{ok}
use context_control_plane.Python.Text.{
  strip, is_empty, is_ascii, lstrip, rstrip, is_space, text_length,
}
use context_control_plane.Python.Runtime.{Runtime, replace}
use context_control_plane.Approvals.{parse_timestamp, format_timestamp}
use context_control_plane.Approvals.Issue.{IsLawful}
use context_control_plane.Approvals.Written.{IsTight}
use context_control_plane.Approvals.Binding.{HasDigests}

-- A time is written as that many strokes, and one more.
unfoldable pub strokes : ℕ → String
strokes zero = "t"
strokes (suc n) = String.◌∷◌ "t" (strokes n)

-- The time that was written, in microseconds.
unfoldable pub read_strokes : String → ℕ
unfolding text_length
read_strokes s = (text_length s - 1) * 1000000

abbrev pub machine : Runtime
machine = record {
  environ = λ name. if name == "CCP_APPROVAL_SIGNING_KEY" then some " key " else none;
  expand_user = λ path. path;
  read_text = λ path. none;
  now = 2500000;
  isoformat = strokes;
  fromisoformat = λ s. ok (read_strokes s);
  sha256_hex = λ s. String.◌∷◌ "d" s;
  hmac_hex = λ key payload. strokes (text_length payload);
  uuid_hex = λ n. "0f";
}

not-is_empty-strokes : (n : ℕ) → is_empty (strokes n) ≡ false
unfolding is_empty strokes
not-is_empty-strokes zero = refl
not-is_empty-strokes (suc n) = refl

is_ascii-strokes : (n : ℕ) → is_ascii (strokes n) ≡ true
unfolding is_ascii strokes
is_ascii-strokes zero = refl
is_ascii-strokes (suc n) = is_ascii-strokes n

lstrip-strokes : (n : ℕ) → lstrip (strokes n) ≡ strokes n
unfolding lstrip strokes is_space
lstrip-strokes zero = refl
lstrip-strokes (suc n) = refl

rstrip-strokes : (n : ℕ) → rstrip (strokes n) ≡ strokes n
unfolding rstrip strokes is_space is_empty
rstrip-strokes zero = refl
rstrip-strokes (suc n) = rw (rstrip-strokes n) (rw (not-is_empty-strokes n) refl)

strip-strokes : (n : ℕ) → strip (strokes n) ≡ strokes n
unfolding strip
strip-strokes n = rw (lstrip-strokes n) (rstrip-strokes n)

text_length-strokes : (n : ℕ) → text_length (strokes n) ≡ suc n
unfolding text_length strokes
text_length-strokes zero = refl
text_length-strokes (suc n) = ap suc (text_length-strokes n)

without_offset : (n : ℕ) → replace "+00:00" "Z" (strokes n) ≡ strokes n
unfolding replace strokes
without_offset zero = refl
without_offset (suc n) = ap (λ s. String.◌∷◌ "t" s) (without_offset n)

without_zone : (n : ℕ) → replace "Z" "+00:00" (strokes n) ≡ strokes n
unfolding replace strokes
without_zone zero = refl
without_zone (suc n) = ap (λ s. String.◌∷◌ "t" s) (without_zone n)

pub format_timestamp-IsTight : (t : ℕ) → IsTight (format_timestamp machine t)
unfolding format_timestamp
format_timestamp-IsTight t =
    let n = t / 1000000 in
    rw (without_offset n) (record { tight = strip-strokes n; given = not-is_empty-strokes n })

read_strokes-strokes : (n : ℕ) → read_strokes (strokes n) ≡ n * 1000000
unfolding read_strokes
read_strokes-strokes n = rw (text_length-strokes n) (omega arith)

pub machine-IsLawful : IsLawful machine
unfolding parse_timestamp format_timestamp is_empty
machine-IsLawful = record {
  timestamps = λ t.
      let n = t / 1000000 in
      rw (without_offset n) (
        rw (strip-strokes n)
          (rw (not-is_empty-strokes n) (rw (without_zone n) (ap ok (read_strokes-strokes n)))));
  signatures = λ key payload. not-is_empty-strokes (text_length payload);
  ascii = λ key payload. is_ascii-strokes (text_length payload);
}

pub machine-HasDigests : HasDigests machine
unfolding is_empty
machine-HasDigests x = refl
