-- ===== src/Conversation/Rows.antt =====
-- Reading and writing the rows of a conversation.
pub mod Laws
use najva_messenger.Base.{
  ℕ, ◌≡◌, String, Bool, true, false, ◌&&◌, ◌||◌, not, Option, none, some, List, [], ◌∷◌, ◌++◌, map,
  Action, Result, ok, err, thrown, record_not_found, unique_violation, foreign_key_violation, ◌>>=◌,
  ◌>>◌, pure, gets, modify, or_throw, throw_if, raise_if, find, select, exists, update, ◌==◌,
  if◌then◌else◌, is_none,
}
use najva_messenger.Store.{
  Text, World, User, Conversation, ConversationMember, ConversationKey, MemberRole,
}

-- `conversationId_userId`
abbrev pub is_member_row : Text → Text → ConversationMember → Bool
is_member_row conversation user m = m.conversation_id == conversation && m.user_id == user

abbrev pub has_id : Text → Conversation → Bool
has_id id c = c.id == id

-- `@@unique([conversationId, userId, version])`
abbrev pub is_key_row : Text → Text → ℕ → ConversationKey → Bool
is_key_row conversation user version k =
    k.conversation_id == conversation && k.user_id == user && k.version == version

abbrev pub find_member : Text → Text → World → Option ConversationMember
find_member conversation user w = find (is_member_row conversation user) w.members

abbrev pub find_conversation : Text → World → Option Conversation
find_conversation id w = find (has_id id) w.conversations

-- `prisma.conversationMember.update`, which throws where there is no row.
unfoldable pub update_member :
    Text → Text → (ConversationMember → ConversationMember) → Action World (Unit {0})
update_member conversation user f w =
    if is_none (find_member conversation user w)
    then (err record_not_found, w)
    else (ok tt, record w { members = update (is_member_row conversation user) f w.members })

-- `prisma.conversation.update`; the client also sets `updatedAt`, which is part of `f`.
unfoldable pub update_conversation : Text → (Conversation → Conversation) → Action World (Unit {0})
update_conversation id f w =
    if is_none (find_conversation id w)
    then (err record_not_found, w)
    else (ok tt, record w { conversations = update (has_id id) f w.conversations })

abbrev is_admin_role : MemberRole → Bool
is_admin_role MemberRole.admin = true
is_admin_role MemberRole.member = false

-- `!member || member.role !== 'ADMIN'`
abbrev not_admin : Option ConversationMember → Bool
not_admin none = true
not_admin (some m) = not (is_admin_role m.role)

abbrev pub is_admin : Option ConversationMember → Bool
is_admin o = not (not_admin o)

unfoldable pub require_admin : Text → Text → Action World (Unit {0})
require_admin conversation user w =
    throw_if (not_admin (find_member conversation user w)) "Not authorized" 403 w

-- `!member || member.isRemoved`
abbrev gone : Option ConversationMember → Bool
gone none = true
gone (some m) = m.is_removed

abbrev pub is_present : Option ConversationMember → Bool
is_present o = not (gone o)

-- `requireMember`
unfoldable pub require_member : Text → Text → Action World (Unit {0})
require_member conversation user w =
    throw_if (gone (find_member conversation user w)) "Not a member" 403 w

abbrev pub new_member : Text → Text → MemberRole → ConversationMember
new_member conversation user role = record {
  conversation_id = conversation;
  user_id = user;
  role = role;
  last_read_message_id = none;
  is_removed = false;
  is_muted = false;
  is_hidden = false;
  is_blocked = false;
  cleared_at = none;
}

abbrev is_user : World → Text → Bool
is_user w id = exists (λ (u : User). u.id == id) w.users

-- The references to users that a batch of new rows makes.
unfoldable pub require_users : List Text → Action World (Unit {0})
require_users [] w = (ok tt, w)
require_users (id ∷ ids) w =
    let rest = require_users ids w in if is_user w id then rest else (err foreign_key_violation, w)

-- `createMany` of member rows with `skipDuplicates`
unfoldable pub add_members_skip :
    Text → List Text → List ConversationMember → List ConversationMember
add_members_skip conversation [] ms = ms
add_members_skip conversation (id ∷ ids) ms = add_members_skip conversation ids (
    if exists (is_member_row conversation id) ms
    then ms
    else new_member conversation id MemberRole.member ∷ ms)

-- `createMany` of key rows with `skipDuplicates`
unfoldable pub add_keys_skip : List ConversationKey → List ConversationKey → List ConversationKey
add_keys_skip [] ks = ks
add_keys_skip (k ∷ new) ks =
    add_keys_skip new
      (if exists (is_key_row k.conversation_id k.user_id k.version) ks then ks else k ∷ ks)

abbrev clashes : List ConversationKey → ConversationKey → Bool
clashes ks k = exists (is_key_row k.conversation_id k.user_id k.version) ks

-- `createMany` of key rows, which throws where a row is there already.
unfoldable pub add_keys :
    List ConversationKey → List ConversationKey → Option (List ConversationKey)
add_keys [] ks = some ks
add_keys (k ∷ new) ks = let rest = add_keys new (k ∷ ks) in if clashes ks k then none else rest

abbrev store_keys : Option (List ConversationKey) → Action World (Unit {0})
store_keys none w = (err unique_violation, w)
store_keys (some ks) w = (ok tt, record w { keys = ks })

unfoldable pub create_keys : List ConversationKey → Action World (Unit {0})
unfolding add_keys
create_keys new w = store_keys (add_keys new w.keys) w
