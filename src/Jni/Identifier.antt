-- ===== src/Jni/Identifier.antt =====
-- oracle_utils_jni.c, copyOracleIdentifier: quoting a name for Oracle.
use oracle_fdw.Base.{
  ℕ, suc, ◌+◌, ◌≡◌, refl, Bool, true, false, ◌&&◌, [], ◌∷◌, ◌++◌, Option, none, some, Bytes, length,
  length-append, leb, ◌==◌, if◌then◌else◌, arith,
}

abbrev ends_with : ℕ → Bytes → Bool
ends_with c [] = false
ends_with c (b ∷ []) = b == c
ends_with c (b ∷ bs) = ends_with c bs

abbrev starts_with : ℕ → Bytes → Bool
starts_with c [] = false
starts_with c (b ∷ bs) = b == c

-- A query in parentheses in place of a name.
abbrev pub is_parenthesized : Bytes → Bool
is_parenthesized value = leb 2 (length value) && starts_with b'(' value && ends_with b')' value

-- The loop that counts the quotes, and the one that copies and doubles them.
unfoldable pub count_quotes : Bytes → ℕ
count_quotes [] = 0
count_quotes (b ∷ bs) = let extra = count_quotes bs in if b == b'"' then suc extra else extra

unfoldable pub double_quotes : Bytes → Bytes
double_quotes [] = []
double_quotes (b ∷ bs) =
    let rest = double_quotes bs in if b == b'"' then b ∷ b'"' ∷ rest else b ∷ rest

-- none is a NULL pointer.
unfoldable pub copy_oracle_identifier : Option Bytes → Bytes
copy_oracle_identifier none = []
copy_oracle_identifier (some value) =
    if is_parenthesized value then value else b'"' ∷ (double_quotes value ++ (b'"' ∷ []))

-- The description: how Oracle reads a quoted name, behind the opening quote, up to the closing one.
-- The flag says that the last character was a quote. none is a name without an end.
abbrev push : ℕ → Option (Bytes × Bytes) → Option (Bytes × Bytes)
push b none = none
push b (some r) = some (b ∷ r.0, r.1)

unfoldable pub read_quoted : Bool → Bytes → Option (Bytes × Bytes)
read_quoted false [] = none
read_quoted true [] = some ([], [])
read_quoted false (b ∷ bs) =
    let next = read_quoted (b == b'"') bs in if b == b'"' then next else push b next
read_quoted true (b ∷ bs) =
    let next = read_quoted false bs in if b == b'"' then push b next else some ([], b ∷ bs)

read_quoted-double_quotes :
    (value : Bytes) → read_quoted false (double_quotes value ++ (b'"' ∷ [])) ≡ some (value, [])
unfolding read_quoted double_quotes
read_quoted-double_quotes [] = refl
read_quoted-double_quotes (b ∷ bs) = ground (arith, read_quoted-double_quotes bs)

length-double_quotes :
    (value : Bytes) → length (double_quotes value) ≡ length value + count_quotes value
unfolding double_quotes count_quotes
length-double_quotes [] = refl
length-double_quotes (b ∷ bs) = ground (arith, length-double_quotes bs)

-- A name that is not a query in parentheses is copied as a quoted name that Oracle reads as that very
-- name, up to the end: no name can break out of its quotes.
pub copy_oracle_identifier-IsQuoted :
    (value : Bytes)
    → is_parenthesized value ≡ false
    → (body : Bytes) × (copy_oracle_identifier (some value) ≡ b'"' ∷ body)
      × (read_quoted false body ≡ some (value, []))
unfolding copy_oracle_identifier
copy_oracle_identifier-IsQuoted value h =
    (double_quotes value ++ (b'"' ∷ []), rw h refl, read_quoted-double_quotes value)

-- The copy of a name that is not a query in parentheses fills the allocated buffer, of
-- len + extra + 3 bytes with the zero at the end, exactly.
pub length-copy_oracle_identifier :
    (value : Bytes)
    → is_parenthesized value ≡ false
    → length (copy_oracle_identifier (some value)) + 1 ≡ length value + count_quotes value + 3
unfolding copy_oracle_identifier
length-copy_oracle_identifier value h =
    rw h
      (omega (arith, length-append (double_quotes value) (b'"' ∷ []), length-double_quotes value))
