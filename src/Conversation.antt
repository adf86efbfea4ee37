-- ===== src/Conversation.antt =====
-- server/src/services/conversation.service.ts: what its parts share. The parts are the set of
-- wraps that a new conversation key needs (ShareSet), groups and channels (Groups), direct chats
-- and saved messages (Direct), and a member's own settings of a chat (Settings).
pub mod Rows
pub mod ShareSet
pub mod Groups
pub mod Direct
pub mod Settings
pub mod Tests
