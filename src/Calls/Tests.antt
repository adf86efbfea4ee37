-- ===== src/Calls/Tests.antt =====
-- A concrete input for the theorem on grants.
use najva_messenger.Base.{◌≡◌, ◌+◌, ◌∷◌, [], ok, find}
use najva_messenger.Conversation.Tests.{office}
use najva_messenger.Calls.{CallServices, MediaGrant, issue_grant, issue_grant_exact}

abbrev call_services : CallServices
call_services = record {
  turn_credential_ttl = 600;
  stun_urls = 1 ∷ [];
  turn_urls = 2 ∷ [];
  media_server_public_url = 3;
  hmac = λ t. t + 1;
  turn_name = λ expiry user. expiry + user;
  sign_grant = λ now claims. claims.room_id;
}

issue_grant_exact_example :
    (g : MediaGrant) × (issue_grant call_services 8 20 1000 office ≡ (ok g, office))
    × (g.room_id ≡ 20)
    × (g.token ≡ 20)
unfolding find
issue_grant_exact_example = issue_grant_exact call_services 8 20 1000 office
