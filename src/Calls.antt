-- ===== src/Calls.antt =====
-- server/src/services/call.service.ts: grants for calls and the credentials of the relay.
mod Tests
use najva_messenger.Base.{
  ℕ, ◌+◌, ◌/◌, ◌≡◌, refl, inl, inr, Bool, true, false, not, Option, none, some, List, [], ◌∷◌, ◌++◌,
  Action, Result, ok, err, thrown, ◌>>=◌, ◌>>◌, pure, gets, throw_if, if◌then◌else◌, Bool-cases,
}
use najva_messenger.Store.{Text, World}
use najva_messenger.Conversation.Rows.{find_member, is_present}

pub record IceServer : Type 0 where
  pub urls : List Text
  pub username : Option Text
  pub credential : Option Text

pub record MediaGrantClaims : Type 0 where
  pub user_id : Text
  pub room_id : Text

pub record MediaGrant : Type 0 where
  pub token : Text
  pub room_id : Text
  pub media_server_url : Text
  pub ice_servers : List IceServer

-- The configuration, and what the libraries do: a keyed hash in base64, the text of an expiry and
-- a user, and a signed token that is good for a minute.
pub record CallServices : Type 0 where
  pub turn_credential_ttl : ℕ
  pub stun_urls : List Text
  pub turn_urls : List Text
  pub media_server_public_url : Text
  pub hmac : Text → Text
  pub turn_name : (expiry : ℕ) → (user : Text) → Text
  pub sign_grant : (now : ℕ) → MediaGrantClaims → Text

abbrev unless_nil : List Text → IceServer → List IceServer
unless_nil [] s = []
unless_nil (u ∷ us) s = s ∷ []

module _ (c : CallServices) where
  pub ice_servers : Text → ℕ → List IceServer
  ice_servers user now =
      let username = c.turn_name (now / 1000 + c.turn_credential_ttl) user in
      unless_nil c.stun_urls (record { urls = c.stun_urls; username = none; credential = none })
      ++ unless_nil c.turn_urls (record {
        urls = c.turn_urls;
        username = some username;
        credential = some (c.hmac username);
      })

  pub issue_grant : Text → Text → ℕ → Action World MediaGrant
  issue_grant user conversation now = do
    member ← gets (find_member conversation user)
    throw_if (not (is_present member)) "Not a member of this conversation" 403
    pure (record {
      token = c.sign_grant now (record { user_id = user; room_id = conversation });
      room_id = conversation;
      media_server_url = c.media_server_public_url;
      ice_servers = ice_servers user now;
    })

-- `issueGrant` gives a grant to the active members of a conversation and throws for anybody else;
-- the room of the grant and of its signed claims is the conversation, the claims name the caller,
-- and nothing is written in either case.
pub issue_grant_exact :
    (c : CallServices) (user conversation : Text) (now : ℕ) (w : World)
    → if is_present (find_member conversation user w)
      then ((g : MediaGrant) × (issue_grant c user conversation now w ≡ (ok g, w))
          × (g.room_id ≡ conversation)
          × (g.token ≡ c.sign_grant now (record { user_id = user; room_id = conversation })))
      else (issue_grant c user conversation now w
          ≡ (err (thrown "Not a member of this conversation" 403), w))
unfolding issue_grant
issue_grant_exact c user conversation now w =
    elim (Bool-cases (is_present (find_member conversation user w))) [
      | inl inside ↦ rw inside (
        record {
          token = c.sign_grant now (record { user_id = user; room_id = conversation });
          room_id = conversation;
          media_server_url = c.media_server_public_url;
          ice_servers = ice_servers c user now;
        },
        refl,
        refl,
        refl,
      )
      | inr outside ↦ rw outside refl
    ]
