-- ===== src/Services.antt =====
-- What the handlers use and src/ does not define: hashes, signed tokens and one-time codes.
-- `sha256` is the hex digest; a token is signed and verified at a time.
use najva_messenger.Base.{ℕ, Bool, Option}
use najva_messenger.Store.{Text}

-- `RefreshTokenPayload` of server/src/utils/jwt.ts
pub record RefreshPayload : Type 0 where
  pub user_id : Text
  pub session_id : Text
  pub jti : Text

pub record Services : Type 0 where
  pub sha256 : Text → Text
  pub sign_access : (now : ℕ) → (user session : Text) → Text
  pub sign_refresh : (now : ℕ) → RefreshPayload → Text
  pub verify_refresh : (now : ℕ) → Text → Option RefreshPayload
  pub bcrypt_hash : (salt : Text) → Text → Text
  pub bcrypt_compare : Text → Text → Bool
  pub verify_totp : (now : ℕ) → (secret code username : Text) → Bool
