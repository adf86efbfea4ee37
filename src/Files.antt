-- ===== src/Files.antt =====
-- server/src/services/file.service.ts: encrypted attachments under a storage quota. The bytes on
-- disk are not modelled.
mod Tests
use mathlib.Core.Path.{subst, sym}
use najva_messenger.Base.{
  ℕ, ◌+◌, ◌≤◌, ◌<◌, ◌⊎◌, ◌≡◌, refl, inl, inr, Bool, true, false, ◌&&◌, not, Option, none, some,
  List, [], ◌∷◌, Action, Result, ok, err, thrown, ◌>>=◌, ◌>>◌, pure, gets, modify, or_throw,
  throw_if, find, update, ltb, ◌==◌, if◌then◌else◌, Bool-cases, Option-cases, ok-inj, map_option,
  arith, ==_iff, ap,
}
use najva_messenger.Base.Tables.Laws.{find-holds}
use najva_messenger.Store.{Text, World, User, Attachment, Message, falsy}
use najva_messenger.Conversation.Rows.{find_member, is_present}
use najva_messenger.Messages.{find_message}

-- An uploaded file, as the multipart parser hands it on.
pub record UploadedFile : Type 0 where
  pub path : Text
  pub size : ℕ
  pub mime_type : Text

pub record UploadMeta : Type 0 where
  pub encrypted_key : Option Text
  pub mime_type : Option Text

abbrev pub has_user_id : Text → User → Bool
has_user_id id u = u.id == id

abbrev size_of : Option UploadedFile → ℕ
size_of none = 0
size_of (some t) = t.size

abbrev pub total_size : UploadedFile → Option UploadedFile → ℕ
total_size file thumbnail = file.size + size_of thumbnail

abbrev mime_of : Option Text → Text → Text
mime_of none mime = mime
mime_of (some declared) mime = if falsy declared then mime else declared

abbrev pub new_attachment : UploadedFile → Option UploadedFile → UploadMeta → Text → Attachment
new_attachment file thumbnail meta id = record {
  id = id;
  message_id = none;
  file_size = file.size;
  mime_type = mime_of meta.mime_type file.mime_type;
  encrypted_key = meta.encrypted_key;
  thumbnail_path = map_option (λ t. t.path) thumbnail;
}

abbrev pub charged : ℕ → User → User
charged size u = record u { storage_used = u.storage_used + size }

-- `id` is the fresh identifier of the attachment.
pub upload_file : Text → UploadedFile → Option UploadedFile → UploadMeta → Text → Action World Text
upload_file user file thumbnail meta id = do
  row ← or_throw (← gets (λ w. find (has_user_id user) w.users)) "User not found" 404
  throw_if (ltb row.storage_limit (row.storage_used + total_size file thumbnail))
      "Storage limit exceeded" 400
  modify (λ w. record w { attachments = new_attachment file thumbnail meta id ∷ w.attachments })
  modify (λ w. record w {
    users = update (has_user_id user) (charged (total_size file thumbnail)) w.users;
  })
  pure id

abbrev pub find_attachment : Text → World → Option Attachment
find_attachment id w = find (λ a. a.id == id) w.attachments

abbrev pub message_of : Option Text → World → Option Message
message_of none w = none
message_of (some id) w = find_message id w

unfoldable pub get_file_for_user : Text → Text → Action World Attachment
get_file_for_user attachment user = do
  a ← or_throw (← gets (find_attachment attachment)) "File not found" 404
  m ← or_throw (← gets (message_of a.message_id)) "Forbidden" 403
  member ← gets (find_member m.conversation_id user)
  throw_if (not (is_present member)) "Forbidden" 403
  pure a

-- The row of one user after another, or the same, has been charged.
abbrev pub charge_of : (user other : Text) → ℕ → User → User
charge_of user other size u =
    if user == other then record u { storage_used = u.storage_used + size } else u

find-charged :
    (user other : Text) (size : ℕ) (us : List User)
    → find (has_user_id other) (update (has_user_id user) (charged size) us)
      ≡ map_option (charge_of user other size) (find (has_user_id other) us)
unfolding find update
find-charged user other size [] = refl
find-charged user other size (u ∷ us) = ground (arith, find-charged user other size us)

-- The size of a file with that of its thumbnail, where there is one.
abbrev pub with_thumbnail : UploadedFile → Option UploadedFile → ℕ
with_thumbnail file none = file.size
with_thumbnail file (some thumbnail) = file.size + thumbnail.size

total_size-with_thumbnail :
    (file : UploadedFile) (thumbnail : Option UploadedFile)
    → total_size file thumbnail ≡ with_thumbnail file thumbnail
total_size-with_thumbnail file none = omega arith
total_size-with_thumbnail file (some t) = refl

-- A fresh attachment of the file, which hangs on no message yet.
abbrev pub Stores : UploadedFile → UploadMeta → Text → Attachment → Type 0
Stores file meta id a =
    (a.id ≡ id)
    × (a.message_id ≡ none)
    × (a.file_size ≡ file.size)
    × (a.encrypted_key ≡ meta.encrypted_key)

abbrev pub Uploads :
    Text → ℕ → UploadedFile → UploadMeta → Text → World → Option User → Result Text × World → Type 0
Uploads user size file meta id w none (r, w') = (r ≡ err (thrown "User not found" 404)) × (w' ≡ w)
Uploads user size file meta id w (some u) (r, w') =
    ((u.storage_limit < u.storage_used + size)
      × (r ≡ err (thrown "Storage limit exceeded" 400))
      × (w' ≡ w))
    ⊎ ((u.storage_used + size ≤ u.storage_limit)
        × (r ≡ ok id)
        × ((a : Attachment) × (w'.attachments ≡ a ∷ w.attachments) × Stores file meta id a)
        × ((other : Text)
            → find (has_user_id other) w'.users
              ≡ map_option (charge_of user other size) (find (has_user_id other) w.users))
        × (w' ≡ record w { users = w'.users; attachments = w'.attachments }))

-- What `uploadFile` does in every case: for an unknown user, or where the sizes of the file and its
-- thumbnail would exceed the quota, it throws and changes nothing; else both sizes are within the
-- quota and are charged to the user's row, no other user's row changes, and one attachment with the
-- file's size and key, which is part of no message yet, is stored.
pub upload_file_exact :
    (user : Text) (file : UploadedFile) (thumbnail : Option UploadedFile) (meta : UploadMeta)
    (id : Text) (w : World)
    → Uploads user
        (with_thumbnail file thumbnail)
        file
        meta
        id
        w
        (find (has_user_id user) w.users)
        (upload_file user file thumbnail meta id w)
unfolding upload_file
upload_file_exact user file thumbnail meta id w =
    let size : ℕ = total_size file thumbnail in
    elim (Option-cases (find (has_user_id user) w.users)) [
      | inl missing ↦ rw missing (refl, refl)
      | inr (u, there) ↦
          rw (← total_size-with_thumbnail file thumbnail)
            (elim (Bool-cases (ltb u.storage_limit (u.storage_used + size))) [
              | inl over ↦ rw (there, over) (inl (ground arith, refl, refl))
              | inr within ↦
                  rw (there, within)
                    (inr (
                      ground arith,
                      refl,
                      (new_attachment file thumbnail meta id, refl, (refl, refl, refl, refl)),
                      λ other. find-charged user other size w.users,
                      refl,
                    ))
            ])
    ]

-- `getFileForUser` returns an attachment only where it hangs on a message of a conversation whose
-- active member the user is; and it changes nothing in any case.
pub get_file_for_user_guarded :
    (attachment user : Text) (w w' : World) (a : Attachment)
    → get_file_for_user attachment user w ≡ (ok a, w')
    → (find_attachment attachment w ≡ some a)
      × ((m : Message) × (message_of a.message_id w ≡ some m)
          × (is_present (find_member m.conversation_id user w) ≡ true))
      × (w' ≡ w)
unfolding get_file_for_user
get_file_for_user_guarded attachment user w w' a e =
    elim (Option-cases (find_attachment attachment w)) [
      | inl missing ↦ absurd (cc (rw missing at e))
      | inr (b, there) ↦ elim (Option-cases (message_of b.message_id w)) [
        | inl orphan ↦ absurd (cc (rw (there, orphan) at e))
        | inr (m, sent) ↦ elim (Bool-cases (is_present (find_member m.conversation_id user w))) [
          | inr outside ↦ absurd (cc (rw (there, sent, outside) at e))
          | inl inside ↦
              let out = ok-inj (rw (there, sent, inside) at e) in
              subst
                (λ x.
                  (find_attachment attachment w ≡ some x)
                  × ((n : Message) × (message_of x.message_id w ≡ some n)
                      × (is_present (find_member n.conversation_id user w) ≡ true))
                  × (w' ≡ w))
                out.0 (there, (m, sent, inside), sym out.1)
        ]
      ]
    ]
