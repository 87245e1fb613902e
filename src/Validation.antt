-- ===== src/Validation.antt =====
-- String-length validation (backend/src/core/validation.py). The values are texts by their types.
use grantlayer.Prelude.{ℕ, String, len, ltb}
use grantlayer.Result.{Result, validation_error, raise_if}

abbrev pub max_short_id_length : ℕ
max_short_id_length = 128

abbrev pub max_role_length : ℕ
max_role_length = 64

abbrev pub max_name_length : ℕ
max_name_length = 256

abbrev pub max_reason_length : ℕ
max_reason_length = 1000

unfoldable pub validate_string_length : String → String → ℕ → Result (Unit {0})
validate_string_length value field_name max_length =
    raise_if (ltb max_length (len value)) (validation_error field_name)
