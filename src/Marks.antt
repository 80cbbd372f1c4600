-- ===== src/Marks.antt =====
-- Who has to synchronise, told by what has happened: the contract of server/easysyncserver.cpp with its
-- database. A host of a user is marked when another host of that user notifies, and is no longer marked
-- when a synchronisation is reported as done under its name; nothing else counts. The server takes that
-- name from the place of the socket in its lists.
pub mod Tables
pub mod Methods
pub mod Events
pub mod Handlers
pub mod Lines
pub mod Registry
pub mod History
pub mod Traced
pub mod Delivery
pub mod Examples
use easysync.Prelude.{
  ℕ, Bool, true, false, not, ◌&&◌, ◌||◌, Option, none, some, List, [], ◌∷◌, ◌==◌, any, all,
  if◌then◌else◌,
}
use easysync.Text.{Text, text_eq}
use easysync.Database.Schema.{User, Host, user_id_of}
use easysync.Database.Statements.{is_host, owned_by}

-- A synchronisation is reported as done under the name of a host, or a host notifies the others of its
-- user.
pub data Event : Type 0 where
  is_over : Text → Event
  notifies : (username hostname : Text) → Event

-- One host of the user with the number `owner`.
module _ (users : List User) (owner : ℕ) (host : Text) where
  abbrev pub mark : Event → Bool → Bool
  mark (is_over h) due = not (text_eq h host) && due
  mark (notifies u h) due = (not (text_eq h host) && owned_by (user_id_of u users) owner) || due

  abbrev pub marks : List Event → Bool → Bool
  marks [] due = due
  marks (x ∷ xs) due = marks xs (mark x due)

-- The host is in the table, and every row of its name is the owner's.
abbrev pub is_of : ℕ → Text → List Host → Bool
is_of owner host hs =
    any (is_host host) hs && all (λ r. not (is_host host r) || r.user_id == owner) hs

-- A row of the host says that it has to synchronise.
abbrev pub due : Text → List Host → Bool
due host = any (λ r. is_host host r && r.must_sync == 1)
