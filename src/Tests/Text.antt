-- ===== src/Tests/Text.antt =====
-- Texts and identifiers at concrete inputs.
use memory_bridge.Base.{ℕ, ◌≡◌, refl, ◌&&◌, Bool, ◌∷◌, ◌++◌, some, leb, Str, codes}
use memory_bridge.Shared.Truncate.{truncate, cap_line}
use memory_bridge.Shared.Ids
use memory_bridge.Shared.Ids.{
  IsErrorName, sanitize_error_code, origin_instance, new_session_id, repo_of, is_hex,
}

abbrev hex32 : Str
hex32 = codes "0123456789abcdef0123456789abcdef"

abbrev ascii_digit : ℕ → Bool
ascii_digit c = leb b'0' c && leb c b'9'

truncate_run :
    truncate (codes "a message that is too long") 20 ≡ codes "a me" ++ 10 ∷ codes "... [truncated]"
unfolding truncate
truncate_run = refl

cap_line_run : cap_line 20 (codes "keep trailing space out") ≡ codes "keep ...[truncated]"
unfolding cap_line
cap_line_run = refl

sanitize_run : sanitize_error_code (codes "  HTTP 500: no!") ≡ codes "HTTP_500__no_"
unfolding sanitize_error_code
sanitize_run = refl

origin_instance-new_session_id_example :
    origin_instance (new_session_id (codes "django__django-11099") hex32)
    ≡ some (codes "django__django-11099")
unfolding is_hex
origin_instance-new_session_id_example =
    Ids.origin_instance-new_session_id b'd' (codes "jango__django-11099") hex32 refl refl
