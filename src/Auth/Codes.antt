-- ===== src/Auth/Codes.antt =====
-- The recovery codes of an account: eight of them, each with the hash that it is verified by.
use najva_messenger.Base.{
  Bool, false, ◌||◌, not, Option, none, some, List, [], ◌∷◌, map, Action, ok, err, unique_violation,
  exists, select, length, ◌==◌, if◌then◌else◌,
}
use najva_messenger.Store.{Text, World, RecoveryCode, falsy}

-- A new recovery code as a client sends it, with the identifier of its row.
pub record RecoveryCodeInput : Type 0 where
  pub id : Text
  pub verifier_hash : Text
  pub wrapped_mk : Text
  pub wrap_salt : Text

abbrev pub has_eight : Option (List RecoveryCodeInput) → Bool
has_eight none = false
has_eight (some codes) = length codes == 8

abbrev pub is_bad_code : RecoveryCodeInput → Bool
is_bad_code k = falsy k.verifier_hash || falsy k.wrapped_mk || falsy k.wrap_salt

abbrev pub codes_of : Option (List RecoveryCodeInput) → List RecoveryCodeInput
codes_of none = []
codes_of (some codes) = codes

abbrev pub code_row : Text → RecoveryCodeInput → RecoveryCode
code_row user k = record {
  id = k.id;
  user_id = user;
  verifier_hash = k.verifier_hash;
  wrapped_mk = k.wrapped_mk;
  wrap_salt = k.wrap_salt;
  used_at = none;
}

-- `verifierHash` is unique among all codes.
abbrev pub has_verifier : Text → RecoveryCode → Bool
has_verifier hash k = k.verifier_hash == hash

-- `createMany` of codes, which throws where a hash is there already.
unfoldable pub add_codes : List RecoveryCode → List RecoveryCode → Option (List RecoveryCode)
add_codes [] ks = some ks
add_codes (k ∷ new) ks =
    let rest = add_codes new (k ∷ ks) in
    if exists (has_verifier k.verifier_hash) ks then none else rest

abbrev store_codes : Option (List RecoveryCode) → Action World (Unit {0})
store_codes none w = (err unique_violation, w)
store_codes (some ks) w = (ok tt, record w { recovery_codes = ks })

unfoldable pub create_codes : Text → List RecoveryCodeInput → Action World (Unit {0})
unfolding add_codes
create_codes user codes w = store_codes (add_codes (map (code_row user) codes) w.recovery_codes) w

-- `deleteMany` of all codes of a user
abbrev pub delete_codes : Text → World → World
delete_codes user w = record w {
  recovery_codes = select (λ k. not (k.user_id == user)) w.recovery_codes;
}
