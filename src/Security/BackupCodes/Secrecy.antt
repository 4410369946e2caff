-- ===== src/Security/BackupCodes/Secrecy.antt =====
-- What the codec stores and what it reveals.
use mathlib.Core.Path.{subst}
use rsp_website.Prelude.{
  Bool, ◌&&◌, ◌⊎◌, Bool-cases, ℕ, suc, ◌+◌, ◌≡◌, refl, ◌∙◌, ap, inl, inr, true, false, Option, none,
  some, List, [], ◌∷◌, ◌++◌, arith, All, every, length, ltb, is_some, codes, Text, text_eq_refl,
  Option-cases, ◌==◌, eq_of_some, sym,
}
use rsp_website.Prelude.Texts.{strip_prefix_iff}
use rsp_website.Security.BackupCodes.{
  Bytes, version, key_length, split_parts, is_stored_hash, Codec, hash_backup_code,
  matches_backup_code, matches_parts, same_bytes, stored_form, encode_each, encode_code,
  cons_option, print_values, encode_entries, are_hashed, encrypt, is_hashed_backup_code_payload,
}

hashed_form : (rest : Text) → is_stored_hash (version ++ b'$' ∷ rest) ≡ true
unfolding is_stored_hash
hashed_form rest =
    ap is_some ((strip_prefix_iff (version ++ codes "$") (version ++ b'$' ∷ rest) rest).1 refl)

hash_backup_code-hashed :
    (codec : Codec) (code : Text) (salt : Bytes) (v : Text)
    → hash_backup_code codec code salt ≡ some v
    → is_stored_hash v ≡ true
unfolding hash_backup_code stored_form
hash_backup_code-hashed codec code salt v e =
    elim (Option-cases (codec.scrypt code salt key_length)) [
      | inl none_left ↦
          let absurd : stored_form codec salt none ≡ some v =
            ap (stored_form codec salt) (sym none_left) ∙ e in
          cc
      | inr (hash, made) ↦
          let same : version ++ b'$' ∷ (codec.encode salt ++ b'$' ∷ codec.encode hash) ≡ v =
            eq_of_some (ap (stored_form codec salt) (sym made) ∙ e) in
          ap is_stored_hash (sym same) ∙ hashed_form (codec.encode salt ++ b'$' ∷ codec.encode hash)
    ]

encode_code-hashed :
    (codec : Codec) (code : Text) (salt : Bytes) (v : Text)
    → encode_code codec code salt ≡ some v
    → is_stored_hash v ≡ true
unfolding encode_code
encode_code-hashed codec code salt v e =
    ground (arith, e, hash_backup_code-hashed codec code salt v)

encode_code-keeps :
    (codec : Codec) (code : Text) (salt : Bytes)
    → is_stored_hash code ≡ true
    → encode_code codec code salt ≡ some code
unfolding encode_code
encode_code-keeps codec code salt h = ground (arith, h)

-- A list of hashes is stored as it is.
encode_each-keeps :
    (codec : Codec) (salt : ℕ → Bytes) (n : ℕ) (entries : List Text)
    → every is_stored_hash entries ≡ true
    → encode_each codec salt n entries ≡ some entries
unfolding encode_each
encode_each-keeps codec salt n [] h = refl
encode_each-keeps codec salt n (x ∷ xs) h =
    let stored : is_stored_hash x ≡ true = ground (arith, h) in
    let others : every is_stored_hash xs ≡ true = ground (arith, h) in
    ap (λ o. cons_option o (encode_each codec salt (n + 1) xs))
      (encode_code-keeps codec x (salt n) stored)
    ∙ ap (cons_option (some x)) (encode_each-keeps codec salt (n + 1) xs others)
    ∙ unfold cons_option in refl

cons_option_parts :
    (o : Option Text) (os : Option (List Text)) (vs : List Text)
    → cons_option o os ≡ some vs
    → (v : Text) × (rest : List Text) × (o ≡ some v) × (os ≡ some rest) × (vs ≡ v ∷ rest)
unfolding cons_option
cons_option_parts none os vs e = cc
cons_option_parts (some v) none vs e = cc
cons_option_parts (some v) (some rest) vs e = (v, rest, refl, refl, sym (eq_of_some e))

encode_each-hashed :
    (codec : Codec) (salt : ℕ → Bytes) (n : ℕ) (entries values : List Text)
    → encode_each codec salt n entries ≡ some values
    → (every is_stored_hash values ≡ true) × (length values ≡ length entries)
unfolding encode_each
encode_each-hashed codec salt n [] values e =
    subst (λ vs. (every is_stored_hash vs ≡ true) × (length vs ≡ 0)) (eq_of_some e) (refl, refl)
encode_each-hashed codec salt n (x ∷ xs) values e =
    let (v, rest, first, others, all) = cons_option_parts _ _ values e in
    let (hashed, long) = encode_each-hashed codec salt (n + 1) xs rest others in
    let one : is_stored_hash v ≡ true = encode_code-hashed codec x (salt n) v first in
    rw all (ground (arith, one, hashed), ap suc long)

split_parts_lem :
    (part rest : Text)
    → All (λ c. (c == b'$') ≡ false) part
    → split_parts (part ++ b'$' ∷ rest) ≡ (part, (split_parts rest).0 ∷ (split_parts rest).1)
unfolding split_parts
split_parts_lem [] rest h = refl
split_parts_lem (c ∷ cs) rest (q, h) = rw (q, split_parts_lem cs rest h) refl

split_last : (part : Text) → All (λ c. (c == b'$') ≡ false) part → split_parts part ≡ (part, [])
unfolding split_parts
split_last [] h = refl
split_last (c ∷ cs) (q, h) = rw (q, split_last cs h) refl

encrypt_of :
    (codec : Codec) (salt : ℕ → Bytes) (serialized : Text) (entries : List Text)
    → codec.parse serialized ≡ some entries
    → encrypt codec salt serialized ≡ print_values codec (encode_each codec salt 0 entries)
unfolding encrypt encode_entries
encrypt_of codec salt serialized entries read =
    ap (λ o. print_values codec (encode_entries codec salt o)) read

print_values_parts :
    (codec : Codec) (o : Option (List Text)) (stored : Text)
    → print_values codec o ≡ some stored
    → (values : List Text) × (o ≡ some values) × (codec.print values ≡ stored)
unfolding print_values
print_values_parts codec none stored e = cc
print_values_parts codec (some values) stored e = (values, refl, eq_of_some e)

and_true : (b : Bool) → (b && true) ≡ b
and_true true = refl
and_true false = refl

-- What is stored for a code: itself where it is a stored hash already, and else the salt and what
-- scrypt makes of the code with it, in base64url behind the version.
abbrev pub IsStored : Codec → Bytes → Text → Text → Type 0
IsStored codec salt code value =
    ((is_stored_hash code ≡ true) × (value ≡ code))
    ⊎ ((hash : Bytes) × (codec.scrypt code salt 32 ≡ some hash)
        × (value ≡ codes "s1$" ++ (codec.encode salt ++ b'$' ∷ codec.encode hash)))

-- The values stand for the codes one by one, each with the salt of its place.
abbrev pub AreStored : Codec → (ℕ → Bytes) → ℕ → List Text → List Text → Type 0
AreStored codec salt n [] values = values ≡ []
AreStored codec salt n (code ∷ rest) [] = ⊥
AreStored codec salt n (code ∷ rest) (v ∷ values) =
    IsStored codec (salt n) code v × AreStored codec salt (n + 1) rest values

hash_backup_code-IsStored :
    (codec : Codec) (code : Text) (salt : Bytes) (v : Text)
    → hash_backup_code codec code salt ≡ some v
    → IsStored codec salt code v
unfolding hash_backup_code stored_form
hash_backup_code-IsStored codec code salt v e =
    elim (Option-cases (codec.scrypt code salt key_length)) [
      | inl none_left ↦
          let absurd : stored_form codec salt none ≡ some v =
            ap (stored_form codec salt) (sym none_left) ∙ e in
          cc
      | inr (hash, made) ↦
          inr (hash, made, sym (eq_of_some (ap (stored_form codec salt) (sym made) ∙ e)))
    ]

encode_code-IsStored :
    (codec : Codec) (code : Text) (salt : Bytes) (v : Text)
    → encode_code codec code salt ≡ some v
    → IsStored codec salt code v
unfolding encode_code
encode_code-IsStored codec code salt v e = elim (Bool-cases (is_stored_hash code)) [
  | inl t ↦ inl (t, sym (eq_of_some (rw t at e)))
  | inr f ↦ hash_backup_code-IsStored codec code salt v (rw f at e)
]

encode_each-AreStored :
    (codec : Codec) (salt : ℕ → Bytes) (n : ℕ) (entries values : List Text)
    → encode_each codec salt n entries ≡ some values
    → AreStored codec salt n entries values
unfolding encode_each
encode_each-AreStored codec salt n [] values e = sym (eq_of_some e)
encode_each-AreStored codec salt n (x ∷ xs) values e =
    let (v, rest, first, others, all) = cons_option_parts _ _ values e in
    subst (λ vs. AreStored codec salt n (x ∷ xs) vs) (sym all)
      (
        encode_code-IsStored codec x (salt n) v first,
        encode_each-AreStored codec salt (n + 1) xs rest others,
      )

-- A list of codes that is stored successfully is stored as one value for each code: the salted scrypt
-- hash of the code, or the code itself where it has the form of a stored hash. The payload passes for
-- hashed exactly if the list has an element, and storing it once more changes nothing. JSON reads back
-- what it prints.
pub encrypt-IsHashed :
    (codec : Codec) (salt later : ℕ → Bytes) (serialized stored : Text) (entries : List Text)
    → ((vs : List Text) → codec.parse (codec.print vs) ≡ some vs)
    → codec.parse serialized ≡ some entries
    → encrypt codec salt serialized ≡ some stored
    → ((values : List Text) × (codec.parse stored ≡ some values)
        × AreStored codec salt 0 entries values)
      × (is_hashed_backup_code_payload codec stored ≡ ltb 0 (length entries))
      × (encrypt codec later stored ≡ some stored)
unfolding is_hashed_backup_code_payload
encrypt-IsHashed codec salt later serialized stored entries json read e =
    let encoded : print_values codec (encode_each codec salt 0 entries) ≡ some stored =
      sym (encrypt_of codec salt serialized entries read) ∙ e in
    let (values, made, printed) =
      print_values_parts codec (encode_each codec salt 0 entries) stored encoded in
    let back : codec.parse stored ≡ some values = ap codec.parse (sym printed) ∙ json values in
    let (hashed, long) = encode_each-hashed codec salt 0 entries values made in
    let kept : encode_each codec later 0 values ≡ some values =
      encode_each-keeps codec later 0 values hashed in
    (
      (values, back, encode_each-AreStored codec salt 0 entries values made),
      ap are_hashed back
          ∙ unfold are_hashed in rw (hashed, long) (and_true (ltb 0 (length entries))),
      encrypt_of codec later stored values back
          ∙ ap (print_values codec) kept
          ∙ unfold print_values in ap some printed,
    )

split_stored :
    (salt hash : Text)
    → All (λ c. (c == b'$') ≡ false) salt
    → All (λ c. (c == b'$') ≡ false) hash
    → split_parts (version ++ b'$' ∷ (salt ++ b'$' ∷ hash)) ≡ (version, salt ∷ hash ∷ [])
split_stored salt hash plain_s plain_h =
    let behind : split_parts (salt ++ b'$' ∷ hash) ≡ (salt, hash ∷ []) =
      split_parts_lem salt hash plain_s
      ∙ ap (λ (p : Text × List Text). (salt, p.0 ∷ p.1)) (split_last hash plain_h) in
    split_parts_lem version (salt ++ b'$' ∷ hash) (refl, (refl, tt))
    ∙ ap (λ (p : Text × List Text). (version, p.0 ∷ p.1)) behind

same_bytes_refl : (hash : Bytes) → same_bytes (some hash) hash ≡ true
unfolding same_bytes
same_bytes_refl hash = ground (arith, text_eq_refl hash)

stored_of :
    (codec : Codec) (code : Text) (salt hash : Bytes) (stored : Text)
    → codec.scrypt code salt key_length ≡ some hash
    → hash_backup_code codec code salt ≡ some stored
    → version ++ b'$' ∷ (codec.encode salt ++ b'$' ∷ codec.encode hash) ≡ stored
unfolding hash_backup_code stored_form
stored_of codec code salt hash stored scrypted made =
    eq_of_some (ap (stored_form codec salt) (sym scrypted) ∙ made)

-- A stored hash matches the code that it was made from, with the salt that it carries: base64url has
-- no dollar sign, decodes to what was encoded, and neither the salt nor the hash is empty.
pub matches-hash_backup_code :
    (codec : Codec) (code stored : Text) (salt hash : Bytes) (s h : ℕ) (ss hs : Text)
    → hash_backup_code codec code salt ≡ some stored
    → codec.scrypt code salt key_length ≡ some hash
    → length hash ≡ key_length
    → codec.encode salt ≡ s ∷ ss
    → codec.encode hash ≡ h ∷ hs
    → All (λ c. (c == b'$') ≡ false) (s ∷ ss)
    → All (λ c. (c == b'$') ≡ false) (h ∷ hs)
    → codec.decode (s ∷ ss) ≡ salt
    → codec.decode (h ∷ hs) ≡ hash
    → matches_backup_code codec code stored ≡ true
unfolding matches_backup_code matches_parts
matches-hash_backup_code codec code stored salt hash s h ss hs made scrypted long es eh plain_s
      plain_h ds dh =
    let form : version ++ b'$' ∷ ((s ∷ ss) ++ b'$' ∷ (h ∷ hs)) ≡ stored =
      ap (λ (p : Text × Text). version ++ b'$' ∷ (p.0 ++ b'$' ∷ p.1)) (λ i. (sym es i, sym eh i))
      ∙ stored_of codec code salt hash stored scrypted made in
    let parts : split_parts stored ≡ (version, (s ∷ ss) ∷ (h ∷ hs) ∷ []) =
      ap split_parts (sym form) ∙ split_stored (s ∷ ss) (h ∷ hs) plain_s plain_h in
    ap (matches_parts codec code) parts ∙ rw (ds, dh) (rw (long, scrypted) (same_bytes_refl hash))
