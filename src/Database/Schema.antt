-- ===== src/Database/Schema.antt =====
-- The tables `users` and `hosts` (the `create table` texts of server/dbmanager.cpp).
use Prim.Native.Nat.{max}
use easysync.Prelude.{
  ℕ, suc, ℤ, Bool, true, false, Option, none, some, List, [], ◌∷◌, if◌then◌else◌,
}
use easysync.Text.{Text, text_eq}

pub record User : Type 0 where
  pub id : ℕ
  pub username : Text

pub record Host : Type 0 where
  pub id : ℕ
  pub user_id : ℕ
  pub must_sync : ℕ
  pub hostname : Text
  pub socket_id : ℤ

-- A table is there or not.
pub record Tables : Type 0 where
  pub users : Option (List User)
  pub hosts : Option (List Host)

-- A row of one of the `SELECT`s.
pub data Row : Type 0 where
  table_row : Text → Row
  username_row : Text → Row
  must_sync_row : ℕ → Row
  client_row : ℤ → Text → Row

abbrev pub rows_of {ℓ} : {A : Type ℓ} → Option (List A) → List A
rows_of none = []
rows_of (some rows) = rows

abbrev pub exists {ℓ} : {A : Type ℓ} → Option A → Bool
exists none = false
exists (some a) = true

abbrev pub user_rows : Tables → List User
user_rows t = rows_of t.users

abbrev pub host_rows : Tables → List Host
host_rows t = rows_of t.hosts

abbrev pub has_name : Text → User → Bool
has_name name r = text_eq r.username name

-- `(SELECT id FROM users WHERE username = …)`
abbrev pub user_id_of : Text → List User → Option ℕ
user_id_of name [] = none
user_id_of name (r ∷ rs) = if has_name name r then some r.id else user_id_of name rs

-- The id that SQLite gives to a row inserted with a null key: one above the largest in use.
abbrev pub fresh_user_id : List User → ℕ
fresh_user_id [] = 1
fresh_user_id (r ∷ rs) = max (suc r.id) (fresh_user_id rs)

abbrev pub fresh_host_id : List Host → ℕ
fresh_host_id [] = 1
fresh_host_id (r ∷ rs) = max (suc r.id) (fresh_host_id rs)
