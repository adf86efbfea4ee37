-- ===== src/Webauthn/Tests.antt =====
-- A login with the passkey 40 of user 7.
use najva_messenger.Base.{
  List, arith, ◌≡◌, refl, ◌+◌, ◌∷◌, [], some, none, err, thrown, find, select, update, false,
}
use najva_messenger.Store.{World, Credential}
use najva_messenger.Session.{generate_tokens, hash_token, create}
use najva_messenger.Session.Tests.{services}
use najva_messenger.Conversation.Tests.{office}
use najva_messenger.Reset.Tests.{no_meta}
use najva_messenger.Webauthn.{Ceremonies, Purpose, AssertionData, assert_credential, login_verify}
use najva_messenger.Webauthn.Challenges.{Call, run_calls}
use najva_messenger.Webauthn.Ceremony.{login_verify_sound}

-- A response is the identifier of its credential, and every counter goes up by 1.
abbrev ceremonies : Ceremonies
ceremonies = record {
  verify_registration = λ response challenge. none;
  verify_authentication = λ response challenge k. some (k.counter + 1);
  credential_of = λ response. response;
  clean_name = λ t. t;
}

abbrev passkey : Credential
passkey = record {
  id = 4;
  user_id = 7;
  credential_id = 40;
  public_key = 41;
  counter = 3;
  transports = none;
  device_name = none;
  prf_supported = false;
  prf_salt = none;
  wrapped_mk = none;
  created_at = 1;
  last_used_at = none;
}

abbrev challenged : World
challenged = record office {
  credentials = passkey ∷ [];
  login_challenges = record { key = 60; value = 61; expires_at = 9000 } ∷ [];
}

abbrev assertion : AssertionData
assertion = record { challenge_id = some 60; response = some 40 }

-- Another challenge is issued, and a login takes it.
abbrev between : List Call
between =
    Call.options Purpose.logging_in 63 62 150
    ∷ Call.login (record { challenge_id = some 62; response = some 40 }) no_meta 6 87 160
    ∷ []

login_verify_sound_example :
    (login_verify services ceremonies assertion no_meta 5 86 200 (
      run_calls services ceremonies between
        (login_verify services ceremonies assertion no_meta 4 84 100 challenged).1)).0
    ≡ err (thrown "Login challenge expired" 400)
unfolding login_verify assert_credential create generate_tokens hash_token find select update
login_verify_sound_example =
    (login_verify_sound services ceremonies assertion no_meta 4 84 100 challenged
      (login_verify services ceremonies assertion no_meta 4 84 100 challenged).1
      (generate_tokens services 7 4 100 84) between 40 no_meta 5 86 200 refl
      ((λ e. absurd (omega (arith, e))), (tt, tt))).1
