-- ===== src/Shared/Ids.antt =====
-- The identifiers of shared-bridge/src/shared_bridge/backend.py: session ids and the instance in
-- them, repository keys, the store-side user id, and error codes in the recorder's charset.
-- `uuid4().hex` and the Unicode digit test of `str.isdigit` are arguments.
use memory_bridge.Base.{
  ℕ, zero, suc, ◌≤◌, ◌≡◌, refl, Bool, true, false, ◌&&◌, ◌||◌, not, [], ◌∷◌, ◌++◌, Option, none,
  some, arith, leb, ◌==◌, if◌then◌else◌, length, is_empty, all, take, Str, codes, rpartition, map,
  length-take-le, All,
}

-- f"{instance_id}-{uuid4().hex}"
unfoldable pub new_session_id : Str → Str → Str
new_session_id instance_id hex = instance_id ++ codes "-" ++ hex

unfoldable pub is_hex : ℕ → Bool
is_hex c = (leb b'0' c && leb c b'9') || (leb b'a' c && leb c b'f')

unfoldable pub origin_instance : Str → Option Str
unfolding is_hex rpartition
origin_instance origin = elim (rpartition b'-' origin) [
  | none ↦ none
  | some (head, tail) ↦
      if is_empty head || not (length tail == 32)
      then none
      else if all is_hex tail
      then some head
      else none
]

unfoldable pub repo_of : (ℕ → Bool) → Str → Str
unfolding rpartition
repo_of is_digit instance_id = elim (rpartition b'-' instance_id) [
  | none ↦ instance_id
  | some (repo, number) ↦
      if not (is_empty repo) && not (is_empty number) && all is_digit number
      then repo
      else instance_id
]

pub data Scope : Type 0 where
  run instance_scope : Scope

unfoldable pub effective_user_id : Scope → Str → Str → Str
effective_user_id run user_id instance_id = user_id
effective_user_id instance_scope user_id instance_id = user_id ++ codes ":" ++ instance_id

unfoldable pub is_ascii_alnum : ℕ → Bool
is_ascii_alnum c =
    (leb b'0' c && leb c b'9') || (leb b'A' c && leb c b'Z') || (leb b'a' c && leb c b'z')

-- `char in "._-"`
unfoldable pub is_mark : ℕ → Bool
is_mark c = c == 46 || c == 95 || c == 45

fold_char : ℕ → ℕ
unfolding is_ascii_alnum is_mark
fold_char c = if is_ascii_alnum c || is_mark c then c else 95

lstrip_marks : Str → Str
unfolding is_mark
lstrip_marks [] = []
lstrip_marks (c ∷ s) = let rest = lstrip_marks s in if is_mark c then rest else c ∷ s

-- `text or "error"`
or_error : Str → Str
or_error [] = codes "error"
or_error (c ∷ s) = c ∷ s

unfoldable pub sanitize_error_code : Str → Str
unfolding fold_char lstrip_marks or_error
sanitize_error_code code = or_error (take 128 (lstrip_marks (map fold_char code)))

-- What the recorder requires of a code: [A-Za-z0-9][A-Za-z0-9._-]{0,127}.
abbrev pub IsErrorName : Str → Type 0
IsErrorName [] = ⊥
IsErrorName (c ∷ s) =
    (is_ascii_alnum c ≡ true)
    × All (λ x. is_ascii_alnum x || is_mark x ≡ true) s
    × (length (c ∷ s) ≤ 128)

abbrev InCharset : Str → Type 0
InCharset = All (λ x. is_ascii_alnum x || is_mark x ≡ true)

fold_char-InCharset : (c : ℕ) → is_ascii_alnum (fold_char c) || is_mark (fold_char c) ≡ true
unfolding fold_char
fold_char-InCharset c = ground arith

map-InCharset : (s : Str) → InCharset (map fold_char s)
map-InCharset [] = tt
map-InCharset (c ∷ s) = (fold_char-InCharset c, map-InCharset s)

take-InCharset : (n : ℕ) (s : Str) → InCharset s → InCharset (take n s)
take-InCharset zero s h = tt
take-InCharset (suc n) [] h = tt
take-InCharset (suc n) (c ∷ s) h = (h.0, take-InCharset n s h.1)

-- After the strip a text is empty or opens with a letter or a digit.
abbrev OpensName : Str → Type 0
OpensName [] = Unit
OpensName (c ∷ s) = (is_ascii_alnum c ≡ true) × InCharset s

lstrip_marks-OpensName : (s : Str) → InCharset s → OpensName (lstrip_marks s)
unfolding lstrip_marks
lstrip_marks-OpensName [] h = tt
lstrip_marks-OpensName (c ∷ s) h = ground (arith, lstrip_marks-OpensName s)

or_error-IsErrorName : (s : Str) → OpensName s → IsErrorName (or_error (take 128 s))
unfolding or_error is_ascii_alnum is_mark
or_error-IsErrorName [] h = (refl, (refl, (refl, (refl, (refl, tt)))), omega arith)
or_error-IsErrorName (c ∷ s) h =
    (h.0, take-InCharset 127 s h.1, omega (arith, length-take-le 127 s))

-- Whatever the native error text, the code that is posted is a name that the recorder accepts.
pub sanitize_error_code-IsErrorName : (code : Str) → IsErrorName (sanitize_error_code code)
unfolding sanitize_error_code
sanitize_error_code-IsErrorName code =
    or_error-IsErrorName (lstrip_marks (map fold_char code))
      (lstrip_marks-OpensName (map fold_char code) (map-InCharset code))

-- No dash occurs in the text.
abbrev pub NoDash : Str → Type 0
NoDash = All (λ c. (c == b'-') ≡ false)

rpartition-absent : (s : Str) → NoDash s → rpartition b'-' s ≡ none
unfolding rpartition
rpartition-absent [] h = refl
rpartition-absent (c ∷ s) h = ground (arith, rpartition-absent s h.1)

rpartition-append :
    (head tail : Str)
    → NoDash tail
    → rpartition b'-' (head ++ codes "-" ++ tail) ≡ some (head, tail)
unfolding rpartition
rpartition-append [] tail h = ground (arith, rpartition-absent tail h)
rpartition-append (c ∷ head) tail h = ground (arith, rpartition-append head tail h)

is_hex-NoDash : (s : Str) → all is_hex s ≡ true → NoDash s
unfolding is_hex
is_hex-NoDash [] h = tt
is_hex-NoDash (c ∷ s) h = (ground arith, is_hex-NoDash s (ground arith))

-- A session id that the bridge mints, from a non-empty instance id and 32 hexadecimal digits, gives
-- the instance id back.
pub origin_instance-new_session_id :
    (c : ℕ) (instance_id hex : Str)
    → length hex ≡ 32
    → all is_hex hex ≡ true
    → origin_instance (new_session_id (c ∷ instance_id) hex) ≡ some (c ∷ instance_id)
unfolding origin_instance new_session_id
origin_instance-new_session_id c instance_id hex n h =
    ground (arith, rpartition-append (c ∷ instance_id) hex (is_hex-NoDash hex h))

is_digit-NoDash :
    (is_digit : ℕ → Bool) (s : Str) → is_digit b'-' ≡ false → all is_digit s ≡ true → NoDash s
is_digit-NoDash is_digit [] d h = tt
is_digit-NoDash is_digit (c ∷ s) d h =
    (no_dash c (ground arith), is_digit-NoDash is_digit s d (ground arith))
  where
    no_dash : (x : ℕ) → is_digit x ≡ true → (x == b'-') ≡ false
    no_dash x p = ground arith

-- A non-empty repository, a dash and a non-empty number of digits have that repository as their
-- key, whatever dashes it holds, for any digit test that refuses a dash.
pub repo_of_numbered :
    (is_digit : ℕ → Bool) (r n : ℕ) (repo number : Str)
    → is_digit b'-' ≡ false
    → all is_digit (n ∷ number) ≡ true
    → repo_of is_digit ((r ∷ repo) ++ codes "-" ++ n ∷ number) ≡ r ∷ repo
unfolding repo_of
repo_of_numbered is_digit r n repo number d h =
    ground
      (arith, rpartition-append (r ∷ repo) (n ∷ number) (is_digit-NoDash is_digit (n ∷ number) d h))
