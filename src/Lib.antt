-- ===== src/Lib.antt =====
-- Verification of Najva Messenger, an end-to-end encrypted messenger.
--
-- Parts. The server keeps users, sessions, conversations, members and wrapped conversation keys in
-- a database; its services are called by HTTP handlers and socket events. It never sees a
-- conversation key or a plaintext: clients seal a conversation key to each member and send the
-- sealed wraps, and the server checks who gets one. A client talks to another device through the
-- Double Ratchet. A session service issues and rotates refresh tokens and cuts off the sockets of
-- revoked sessions; the other services act for the users whom it admits.
--
-- Files.
--   Base          results and effects (`Action`), tables of rows, sorting, sets of identifiers.
--   Store         the rows of server/prisma/schema.prisma, the sockets and what was emitted;
--                 Store/Redis is the key-value store with its times to live.
--   Services      hashes, signed tokens and codes, which the server takes from libraries.
--   Session       server/src/services/session.service.ts (create, rotate, list, revokeAllForUser,
--                 revoke, isActive), server/src/utils/jwt.ts (generateTokens) and
--                 server/src/socket/emitter.ts (disconnectSession). Session/Revocation and
--                 Session/Rotation treat one call, Session/History sequences of calls.
--   Ratchet       client/src/lib/crypto/ratchet.ts, all of it. Ratchet/KeyName is `b64Key` and
--                 `sameKey`; Chain, Skipped, Receive, Delivery and Send treat one chain, Handshake
--                 and Conversation the start of a conversation, Forgery a bad message.
--   Conversation  server/src/services/conversation.service.ts. Conversation/Rows reads and writes
--                 the rows, ShareSet is `assertShareSet`, Groups the groups and channels, Direct
--                 the direct chats, Settings a member's own settings, deletion and pinned messages.
--   Wire          client/src/lib/crypto/session.ts; Wire/Exchange puts it on X3dh and Ratchet.
--   X3dh          client/src/lib/crypto/x3dh.ts and keys.ts; X3dh/Agreement is about both sides.
--   Polyfill      client/src/lib/crypto/webCryptoPolyfill.ts: Bits and Sha256 are the hash, Kdf is
--                 HMAC, PBKDF2 and HKDF, Aes one block, Gcm the counter mode with encrypt and
--                 decrypt; Hkdf is about sizes and Tamper about ciphertexts.
--   Auth          server/src/services/auth.service.ts: register, login, getParams, getKeyMaterial
--                 and changePassword; Auth/Codes are the rows of recovery codes, Auth/Recovery
--                 recoverVerify, recoverComplete and regenerateRecoveryCodes, Auth/TwoFactor
--                 setup2FA, verify2FA and disable2FA. Login, Password, SingleUse and Verify are
--                 about these.
--   Webauthn      server/src/services/webauthn.service.ts; Webauthn/Challenges
--                 is about sequences of its calls, Webauthn/Ceremony about a login.
--   Messages      server/src/services/message.service.ts: Posting is sending and forwarding, Reading
--                 is reading, editing and deleting, and Page what a page of messages holds.
--   Reset         server/src/services/reset.service.ts: request, approve, deny, status and complete,
--                 with the theorems on codes in Reset/Codes; Reset/Lost is authorizeReset and
--                 completeLost.
--   PreKeys       server/src/services/key.service.ts; PreKeys/OneTime is about the one-time keys.
--   Files         server/src/services/file.service.ts.
--   Contacts      server/src/services/contacts.service.ts.
--   Calls         server/src/services/call.service.ts.
--   Content       client/src/lib/crypto/messageCrypto.ts; Content/Envelope is
--                 client/src/lib/crypto/envelope.ts with the sealed boxes of primitives.ts,
--                 Content/Keys is client/src/lib/crypto/conversationKeys.ts, and Content/Binding is
--                 about the additional data.
--   Chats         client/src/store/chatStore.ts; Chats/Delivery is about incoming messages.
--   Media         media-server/src/peer.ts and room.ts; Media/Handlers is media-server/src/server.ts,
--                 Media/Steps its events as a relation between states, Rooms, Disconnect and Race
--                 are about who is in a room.
--   Users         server/src/services/user.service.ts.
--   Admin         server/src/services/admin.service.ts.
--
-- Conventions. A handler is an `Action`: it takes the state to a result or an error, and to a new
-- state; what it wrote before it threw stays, except in a transaction. The calls of a service are
-- run one after the other: interleaved requests are not modelled, but for the media server, whose
-- joinRoom lets other events in while it waits for a router. The clock and the random values of a
-- call are its arguments. A text is its number in an enumeration that begins with the empty text;
-- where a text's characters matter, in the client's cryptography, it is its bytes. Of the
-- database's constraints the ones on columns that are not random are modelled, and the references
-- of new rows to users. Numbers are not bounded: the counters of the program stay far below 2^53.
-- The loop over skipped messages recurs on the rounds that are left, at most 1000, and the
-- printing of a number has fuel one above it, which is more than its digits. In the polyfill the
-- loops over the bytes of a text or of a key have one round of fuel for each byte, while a round
-- handles 16 or 32 of them. A 32-bit word is its unsigned value there, with the wrap-around
-- written out.
--
-- Not modelled: the network, HTTP parsing and the user interface, the joined rows that a query
-- returns for display, request fields of other types than the source expects, cryptographic strength (the primitives are arguments and their laws are
-- hypotheses of the theorems that need them), and the parts of the server that have no file here.
pub mod Base
pub mod Store
pub mod Services
pub mod Session
pub mod Ratchet
pub mod Conversation
pub mod Messages
pub mod Reset
pub mod Auth
pub mod Webauthn
pub mod Wire
pub mod X3dh
pub mod Users
pub mod Chats
pub mod Content
pub mod Media
pub mod Polyfill
pub mod PreKeys
pub mod Files
pub mod Contacts
pub mod Admin
pub mod Calls
