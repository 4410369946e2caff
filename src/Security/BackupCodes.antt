-- ===== src/Security/BackupCodes.antt =====
-- The codec of stored backup codes (apps/auth/src/security/backup-code-store.ts). `scrypt` is
-- `scryptSync`, none where it throws; `encode` and `decode` are base64url, `parse` and `print` are
-- JSON; the candidate of the request is the argument that `AsyncLocalStorage` carries.
pub mod Secrecy
use rsp_website.Prelude.{
  ℕ, zero, suc, ◌+◌, Bool, true, false, not, ◌&&◌, Option, none, some, List, [], ◌∷◌, ◌++◌, map,
  ltb, ◌==◌, if◌then◌else◌, length, every, is_some, codes, Text, text_eq,
}
use rsp_website.Prelude.Texts.{strip_prefix}

abbrev pub Bytes : Type 0
Bytes = List ℕ

abbrev pub version : Text
version = codes "s1"

abbrev pub key_length : ℕ
key_length = 32

-- `encoded.split('$')`: the first part, and the others
unfoldable pub split_parts : Text → Text × List Text
split_parts [] = ([], [])
split_parts (c ∷ cs) =
    let (first, others) = split_parts cs in
    if c == b'$' then ([], first ∷ others) else (c ∷ first, others)

unfoldable pub is_stored_hash : Text → Bool
is_stored_hash value = is_some (strip_prefix (version ++ codes "$") value)

-- the string elements of a parsed array; none where the payload is not an array of strings
pub record Codec : Type 0 where
  pub scrypt : Text → Bytes → ℕ → Option Bytes
  pub encode : Bytes → Text
  pub decode : Text → Bytes
  pub parse : Text → Option (List Text)
  pub print : List Text → Text

unfoldable pub stored_form : Codec → Bytes → Option Bytes → Option Text
stored_form codec salt none = none
stored_form codec salt (some hash) =
    some (version ++ b'$' ∷ (codec.encode salt ++ b'$' ∷ codec.encode hash))

unfoldable pub hash_backup_code : Codec → Text → Bytes → Option Text
unfolding stored_form
hash_backup_code codec code salt = stored_form codec salt (codec.scrypt code salt key_length)

unfoldable pub same_bytes : Option Bytes → Bytes → Bool
same_bytes none expected = false
same_bytes (some actual) expected = length actual == length expected && text_eq actual expected

unfoldable pub matches_parts : Codec → Text → Text × List Text → Bool
unfolding same_bytes
matches_parts codec code (v, (s ∷ salt) ∷ (h ∷ hash) ∷ _) =
    text_eq v version
    && same_bytes (codec.scrypt code (codec.decode (s ∷ salt)) (length (codec.decode (h ∷ hash))))
        (codec.decode (h ∷ hash))
matches_parts codec code _ = false

unfoldable pub matches_backup_code : Codec → Text → Text → Bool
unfolding matches_parts split_parts
matches_backup_code codec code encoded = matches_parts codec code (split_parts encoded)

unfoldable pub cons_option : Option Text → Option (List Text) → Option (List Text)
cons_option none vs = none
cons_option (some v) none = none
cons_option (some v) (some vs) = some (v ∷ vs)

unfoldable pub encode_code : Codec → Text → Bytes → Option Text
unfolding is_stored_hash hash_backup_code
encode_code codec code salt =
    if is_stored_hash code then some code else hash_backup_code codec code salt

-- `salt n` is the salt drawn for the code at position n
unfoldable pub encode_each : Codec → (ℕ → Bytes) → ℕ → List Text → Option (List Text)
unfolding encode_code cons_option
encode_each codec salt n [] = some []
encode_each codec salt n (code ∷ rest) =
    cons_option (encode_code codec code (salt n)) (encode_each codec salt (n + 1) rest)

unfoldable pub print_values : Codec → Option (List Text) → Option Text
print_values codec none = none
print_values codec (some values) = some (codec.print values)

unfoldable pub encode_entries : Codec → (ℕ → Bytes) → Option (List Text) → Option (List Text)
unfolding encode_each
encode_entries codec salt none = none
encode_entries codec salt (some entries) = encode_each codec salt 0 entries

-- `encrypt`; none where it throws
unfoldable pub encrypt : Codec → (ℕ → Bytes) → Text → Option Text
unfolding print_values encode_entries
encrypt codec salt serialized =
    print_values codec (encode_entries codec salt (codec.parse serialized))

-- an empty candidate is none
reveal : Codec → Option Text → Text → Text
unfolding matches_backup_code
reveal codec none stored = stored
reveal codec (some []) stored = stored
reveal codec (some (c ∷ cs)) stored =
    if matches_backup_code codec (c ∷ cs) stored then c ∷ cs else stored

-- `decrypt`; none where it throws
pub decrypt : Codec → Option Text → Text → Option Text
unfolding reveal
decrypt codec candidate serialized = elim (codec.parse serialized) [
  | none ↦ none
  | some values ↦ some (codec.print (map (reveal codec candidate) values))
]

are_hashed : Option (List Text) → Bool
are_hashed none = false
are_hashed (some values) = ltb 0 (length values) && every is_stored_hash values

pub is_hashed_backup_code_payload : Codec → Text → Bool
unfolding are_hashed
is_hashed_backup_code_payload codec serialized = are_hashed (codec.parse serialized)
