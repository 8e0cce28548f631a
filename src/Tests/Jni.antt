-- ===== src/Tests/Jni.antt =====
-- oracle_utils_jni.c at concrete inputs.
use oracle_fdw.Base.{
  ℕ, ◌+◌, ◌-◌, ◌≤◌, ◌≡◌, refl, true, false, List, [], ◌∷◌, ◌++◌, some, none, Bytes, length, arith,
}
use oracle_fdw.Base.Int.{pos, negsuc}
use oracle_fdw.Result.{ok, err, fault, signed_overflow, hex_length, hex_value}
use oracle_fdw.Jni.Hex.{
  hex_digit_value, hex_byte, decode_pairs, decode_hex, encode_hex, decode_hex-encode_hex, FitsHalf,
  decode_hex-FitsHalf,
}
use oracle_fdw.Jni.Identifier.{
  copy_oracle_identifier, double_quotes, count_quotes, read_quoted, copy_oracle_identifier-IsQuoted,
  length-copy_oracle_identifier,
}
use oracle_fdw.Jni.Fields.{
  split_fields, join_fields, empty_fields, length-split_fields, split_fields-join_fields,
}
use oracle_fdw.Jni.Types.{
  OraType, uppercase_ascii, lowercase, starts_with, timestamp_type, type_of_names,
  ora_type_from_names, val_size_for_type, int_of_long, ora_type_from_names-lowercase,
  val_size_for_type-raw,
}
use oracle_fdw.Jni.Savepoints.{
  Call, at_level, savepoints, set_savepoints, end_subtransaction, set_savepoints-readonly,
  end_subtransaction-set_savepoints,
}

decode_hex-lower : decode_hex (some (b'0' ∷ b'f' ∷ b'A' ∷ b'5' ∷ [])) ≡ ok (15 ∷ 165 ∷ [])
unfolding decode_hex decode_pairs hex_byte hex_digit_value
decode_hex-lower = refl

decode_hex-odd : decode_hex (some (b'0' ∷ [])) ≡ err (hex_length 1)
unfolding decode_hex
decode_hex-odd = refl

decode_hex-wrong : decode_hex (some (b'0' ∷ b'0' ∷ b'x' ∷ b'0' ∷ [])) ≡ err (hex_value 2)
unfolding decode_hex decode_pairs hex_byte hex_digit_value
decode_hex-wrong = refl

decode_hex-encode_hex_example :
    decode_hex (some (encode_hex (0 ∷ 171 ∷ 255 ∷ []))) ≡ ok (0 ∷ 171 ∷ 255 ∷ [])
decode_hex-encode_hex_example =
    decode_hex-encode_hex (0 ∷ 171 ∷ 255 ∷ []) (omega arith, (omega arith, (omega arith, tt)))

decode_hex-FitsHalf_example : FitsHalf 4 (decode_hex (some (b'0' ∷ b'f' ∷ b'A' ∷ b'5' ∷ [])))
decode_hex-FitsHalf_example = decode_hex-FitsHalf (b'0' ∷ b'f' ∷ b'A' ∷ b'5' ∷ [])

-- a"b
abbrev name : Bytes
name = b'a' ∷ b'"' ∷ b'b' ∷ []

copy_oracle_identifier-name :
    copy_oracle_identifier (some name) ≡ b'"' ∷ b'a' ∷ b'"' ∷ b'"' ∷ b'b' ∷ b'"' ∷ []
unfolding copy_oracle_identifier double_quotes
copy_oracle_identifier-name = refl

copy_oracle_identifier-IsQuoted_example :
    (body : Bytes) × (copy_oracle_identifier (some name) ≡ b'"' ∷ body)
    × (read_quoted false body ≡ some (name, []))
copy_oracle_identifier-IsQuoted_example = copy_oracle_identifier-IsQuoted name refl

length-copy_oracle_identifier_example :
    length (copy_oracle_identifier (some name)) + 1 ≡ length name + count_quotes name + 3
length-copy_oracle_identifier_example = length-copy_oracle_identifier name refl

abbrev fields : List Bytes
fields = (b'I' ∷ b'D' ∷ []) ∷ [] ∷ (b'7' ∷ []) ∷ []

split_fields-join_fields_example :
    split_fields (join_fields fields) 4 ≡ fields ++ empty_fields (4 - length fields)
split_fields-join_fields_example =
    split_fields-join_fields fields 3 ((refl, (refl, tt)), (tt, ((refl, tt), tt))) (omega arith)
      (omega arith)

length-split_fields_example : length (split_fields (join_fields fields) 2) ≡ 2
length-split_fields_example = length-split_fields (join_fields fields) 2

abbrev clob : Bytes
clob = b'C' ∷ b'L' ∷ b'O' ∷ b'B' ∷ []

ora_type_from_names-clob : ora_type_from_names (some clob) none ≡ OraType.clob
unfolding ora_type_from_names type_of_names uppercase_ascii starts_with timestamp_type
ora_type_from_names-clob = refl

ora_type_from_names-lowercase_example :
    ora_type_from_names (some (lowercase clob)) (some (lowercase []))
    ≡ ora_type_from_names (some clob) (some [])
ora_type_from_names-lowercase_example = ora_type_from_names-lowercase clob []

val_size_for_type-raw_example :
    (size : ℕ) × (val_size_for_type 8 40 OraType.raw (pos 16) (pos 0) (pos 0) (pos 32767)
      ≡ ok (pos size))
    × (length (encode_hex (1 ∷ 2 ∷ [])) + 1 ≤ size)
val_size_for_type-raw_example =
    val_size_for_type-raw 8 40 16 (pos 0) (pos 0) (pos 32767) (1 ∷ 2 ∷ []) (omega arith)
      (omega arith)

-- From a length of 2 ^ 30 on the size overflows; the cast of max_long keeps the low 32 bits.
val_size_for_type-overflow :
    (val_size_for_type 8 40 OraType.raw (pos 1073741824) (pos 0) (pos 0) (pos 0)
      ≡ fault signed_overflow)
    × (val_size_for_type 8 40 OraType.long (pos 0) (pos 0) (pos 0) (pos 4294967297) ≡ ok (pos 5))
    × (val_size_for_type 8 40 OraType.long (pos 0) (pos 0) (pos 0) (pos 4294967286) ≡ ok (negsuc 5))
unfolding val_size_for_type int_of_long
val_size_for_type-overflow = (refl, refl, refl)

set_savepoints-readonly_example :
    set_savepoints (λ c. false) (at_level 1 true) 3
    ≡ record { calls = []; state = at_level 3 true; returned = true }
set_savepoints-readonly_example = set_savepoints-readonly (λ c. false) 1 3

end_subtransaction-set_savepoints_example :
    let entered = set_savepoints (λ c. true) (at_level 1 false) 3 in
    (entered.calls ≡ savepoints 2 1)
    × (end_subtransaction (λ c. true) entered.state 3 false ≡ record {
      calls = Call.close_statement ∷ Call.rollback_to_savepoint 3 ∷ [];
      state = at_level 2 false;
      returned = true;
    })
    × (end_subtransaction (λ c. true) entered.state 3 true
        ≡ record { calls = []; state = at_level 2 false; returned = true })
end_subtransaction-set_savepoints_example =
    end_subtransaction-set_savepoints (λ c. true) 1 2 (λ c. refl) (omega arith) (omega arith)
