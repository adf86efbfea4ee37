-- ===== src/Session/Tests.antt =====
-- Concrete inputs for the theorems on sessions.
use najva_messenger.Session.Effects.{has_socket}
use najva_messenger.Session.History.{is_revoked, rotate_once, run, Call, run_revoked}
use najva_messenger.Session.Rotation.{Rotates, check, rotate_outcomes}
use najva_messenger.Session.Revocation.{is_other_of, revoke_all_for_user_exact}
use najva_messenger.Base.{
  ◌≡◌, refl, ℕ, find, some, ◌+◌, ◌∷◌, none, [], ◌==◌, err, thrown, if◌then◌else◌, false, arith,
}
use najva_messenger.Store.{Session, World, empty_world}
use najva_messenger.Services.{Services}
use najva_messenger.Session.{rotate, hash_token, revoke_all_for_user, is_active}

-- A token is its `jti`, and every token is of user 7 and session 1; hashes add 1.
abbrev pub services : Services
services = record {
  sha256 = λ t. t + 1;
  sign_access = λ now user session. user;
  sign_refresh = λ now p. p.jti;
  verify_refresh = λ now t. some (record { user_id = 7; session_id = 1; jti = t });
  bcrypt_hash = λ salt t. t;
  bcrypt_compare = λ t h. t == h;
  verify_totp = λ now secret code username. secret == code;
}

abbrev pub row : ℕ → ℕ → ℕ → Session
row id user hash = record {
  id = id;
  user_id = user;
  refresh_token_hash = hash;
  prev_token_hash = none;
  device_name = none;
  user_agent = none;
  ip = none;
  created_at = 0;
  last_used_at = id;
  expires_at = 1000;
  revoked_at = none;
}

abbrev three : World
three = record empty_world {
  sessions = row 1 7 51 ∷ row 2 7 61 ∷ row 3 8 71 ∷ [];
  sockets =
      record { id = 11; user_id = 7; session_id = 1 }
      ∷ record { id = 12; user_id = 7; session_id = 2 }
      ∷ [];
}

revoke_all_for_user_exact_example :
    has_socket 1 (revoke_all_for_user 7 (some 2) 100 three).1.sockets
    ≡ (if is_other_of 7 (some 2) (row 1 7 51) then false else has_socket 1 three.sockets)
unfolding find
revoke_all_for_user_exact_example =
    (revoke_all_for_user_exact 7 (some 2) 100 three (refl, (refl, (refl, tt)))).2 1 (row 1 7 51)
      refl

rotate_outcomes_example :
    Rotates services 50 100 80 three (check services 50 100 three) (rotate services 50 100 80 three)
rotate_outcomes_example = rotate_outcomes services 50 100 80 three

abbrev after_revoke : World
after_revoke = record empty_world {
  sessions = record (row 1 7 51) { revoked_at = some 5 } ∷ row 2 7 61 ∷ [];
}

run_revoked_example :
    is_active 1 30
      (run services after_revoke (Call.rotates 50 10 80 ∷ Call.revokes_all 7 none 20 ∷ []))
    ≡ false
unfolding is_revoked find
run_revoked_example =
    (run_revoked services 1 after_revoke (Call.rotates 50 10 80 ∷ Call.revokes_all 7 none 20 ∷ [])
        tt refl).0
      30

rotate_once_example :
    (rotate services 50 200 81 (rotate services 50 100 80 three).1).0
    ≡ err (thrown "Refresh token reuse detected" 401)
unfolding rotate find hash_token
rotate_once_example =
    (rotate_once services 50 100 80 three (record { user_id = 7; session_id = 1; jti = 50 }) 200 81
      refl refl refl (omega arith) (omega arith)).0
