-- ===== src/Contacts.antt =====
-- server/src/services/contacts.service.ts: the contacts of a user.
use najva_messenger.Base.{
  ℕ, Bool, ◌&&◌, not, none, List, ◌∷◌, Action, ◌>>=◌, ◌>>◌, gets, modify, or_throw, throw_if, find,
  select, exists, ◌==◌, if◌then◌else◌,
}
use najva_messenger.Base.Order.{order_desc}
use najva_messenger.Store.{Text, World, User, Contact}

abbrev is_contact : Text → Text → Contact → Bool
is_contact owner contact c = c.owner_id == owner && c.contact_id == contact

pub list_contacts : Text → World → List Contact
list_contacts owner w =
    order_desc (λ c. c.created_at) (select (λ c. c.owner_id == owner) w.contacts)

abbrev upsert : Contact → List Contact → List Contact
upsert c cs = if exists (is_contact c.owner_id c.contact_id) cs then cs else c ∷ cs

pub add_contact : Text → Text → ℕ → Action World (Unit {0})
add_contact owner contact now = do
  throw_if (owner == contact) "Cannot add yourself as a contact" 400
  target ←
      or_throw (← gets (λ w. find (λ (u : User). u.id == contact) w.users)) "User not found" 404
  modify (λ w. record w {
    contacts =
        upsert (record { owner_id = owner; contact_id = contact; alias = none; created_at = now })
          w.contacts;
  })

pub remove_contact : Text → Text → Action World (Unit {0})
remove_contact owner contact =
    modify (λ w. record w { contacts = select (λ c. not (is_contact owner contact c)) w.contacts })
