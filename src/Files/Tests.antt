-- ===== src/Files/Tests.antt =====
-- Concrete inputs for the theorems on files.
use najva_messenger.Base.{◌≡◌, refl, ◌∷◌, [], some, none, find}
use najva_messenger.Store.{World, Attachment, MessageType}
use najva_messenger.Conversation.Tests.{office}
use najva_messenger.Messages.{new_message}
use najva_messenger.Files.{
  UploadedFile, UploadMeta, Uploads, upload_file, upload_file_exact, find_attachment,
  get_file_for_user, get_file_for_user_guarded, new_attachment, has_user_id,
}

abbrev photo : UploadedFile
photo = record { path = 1; size = 60; mime_type = 2 }

abbrev meta : UploadMeta
meta = record { encrypted_key = some 3; mime_type = none }

abbrev small : UploadedFile
small = record { path = 4; size = 30; mime_type = 2 }

upload_file_exact_example :
    Uploads 7 90 photo meta 50 office
      (find (has_user_id 7) office.users)
      (upload_file 7 photo (some small) meta 50 office)
upload_file_exact_example = upload_file_exact 7 photo (some small) meta 50 office

abbrev sent : Attachment
sent = record (new_attachment photo none meta 50) { message_id = some 40 }

abbrev shared : World
shared = record office {
  attachments = sent ∷ [];
  messages =
      new_message 20 7
        (record {
          type = MessageType.image;
          encrypted_content = 90;
          iv = none;
          ephemeral_key = none;
          sender_key_version = none;
          reply_to_id = none;
          attachment_ids = [];
        })
        5 40
      ∷ [];
}

get_file_for_user_guarded_example : find_attachment 50 shared ≡ some sent
unfolding get_file_for_user find
get_file_for_user_guarded_example =
    (get_file_for_user_guarded 50 8 shared (get_file_for_user 50 8 shared).1 sent refl).0
