-- ===== src/DbManager/Enrol.antt =====
-- `addUser` of server/dbmanager.cpp: what it leaves in the table `users`.
use easysync.Prelude.{
  ◌≡◌, refl, Bool, true, false, not, ◌&&◌, some, List, [], ◌∷◌, ◌++◌, any, any-append, arith,
  if◌then◌else◌, ap, ◌∙◌,
}
use easysync.Text.{Text, text_eq_refl}
use easysync.Database.Schema.{Tables, User, user_rows, has_name, exists}
use easysync.Database.Statements.{valid, updated, insert_user, new_user}
use easysync.Database.Engine.{Engine, IsReliable}
use easysync.DbManager.{DbManager, is_user_valid, add_user, insert_unless}
use easysync.DbManager.Quote.{has_quote}
use easysync.DbManager.Execution.{tables_of, DbManager-cases, at, tables_done}
use easysync.DbManager.Users.{is_known, HasUsers, is_user_valid_lem, tables-is_user_valid}

-- The rows of `users` once a user has been added: a name that isUserValid refuses is inserted.
abbrev pub rows_with : Bool → Text → Tables → List User
rows_with accepted u t =
    if accepted then user_rows t else user_rows t ++ new_user u (user_rows t) ∷ []

abbrev pub users_with : Text → Tables → List User
users_with u t = rows_with (is_known u t && not (has_quote u)) u t

known_after :
    (u : Text) (t : Tables)
    → (any (has_name u) (users_with u t) && not (has_quote u)) ≡ not (has_quote u)
known_after u t =
    ground
      (arith, any-append (has_name u) (user_rows t) (new_user u (user_rows t) ∷ []), text_eq_refl u)

module _ (e : Engine) where
  open e use {Db, tables, exec}

  -- What addUser promises of its result.
  record Added (t : Tables) (us : List User) (m : DbManager e) : Type 0 where
    usable : HasUsers e m
    listed : user_rows (tables_of e m) ≡ us
    apart : (tables_of e m).hosts ≡ t.hosts

  inserted :
      (r : IsReliable e) (u : Text) (m : DbManager e)
      → HasUsers e m
      → Added
          (tables_of e m)
          (user_rows (tables_of e m) ++ new_user u (user_rows (tables_of e m)) ∷ [])
          (insert_unless e (false, m) u)
  unfolding updated valid
  inserted r u m =
      DbManager-cases e
        (λ m.
          HasUsers e m
          → Added (tables_of e m)
              (user_rows (tables_of e m) ++ new_user u (user_rows (tables_of e m)) ∷ [])
              (insert_unless e (false, m) u))
        (λ path h. cc)
        (λ path d h.
          let done = tables_done e d (insert_user u) (r d (insert_user u) h.1) in
          record {
            usable = (refl, ap (λ t. exists t.users) done);
            listed = ap user_rows done;
            apart = ap (λ t. t.hosts) done;
          })
        m

  insert_if_refused :
      (r : IsReliable e) (u : Text) (v : Bool × DbManager e)
      → HasUsers e v.1
      → Added (tables_of e v.1) (rows_with v.0 u (tables_of e v.1)) (insert_unless e v u)
  insert_if_refused r u (true, m) h = record { usable = h; listed = refl; apart = refl }
  insert_if_refused r u (false, m) h = inserted r u m h

  -- With a reliable engine, an open connection and the users table, addUser succeeds, the
  -- connection and the table stay, the name is inserted at the end unless it was there and holds
  -- no quote, and no host is touched.
  pub add_user_lem :
      IsReliable e
      → (m : DbManager e) (u : Text) → HasUsers e m
      → ((add_user e m u).0 ≡ true)
        × HasUsers e (add_user e m u).1
        × (user_rows (tables_of e (add_user e m u).1) ≡ users_with u (tables_of e m))
        × ((tables_of e (add_user e m u).1).hosts ≡ (tables_of e m).hosts)
  unfolding add_user
  add_user_lem r m u =
      DbManager-cases e
        (λ m.
          HasUsers e m
          → ((add_user e m u).0 ≡ true)
            × HasUsers e (add_user e m u).1
            × (user_rows (tables_of e (add_user e m u).1) ≡ users_with u (tables_of e m))
            × ((tables_of e (add_user e m u).1).hosts ≡ (tables_of e m).hosts))
        (λ path h. cc)
        (λ path d h.
          let m' = at e path (some d) in
          let kept = tables-is_user_valid e m' u in
          let h' : HasUsers e (is_user_valid e m' u).1 =
            (kept.1, ap (λ t. exists t.users) kept.0 ∙ h.1) in
          let a = insert_if_refused r u (is_user_valid e m' u) h' in
          let same =
            ap (λ b. rows_with b u (tables_of e (is_user_valid e m' u).1))
              (is_user_valid_lem e r m' u h)
            ∙ ap (rows_with (is_known u (tables d) && not (has_quote u)) u) kept.0 in
          (refl, a.usable, a.listed ∙ same, a.apart ∙ ap (λ t. t.hosts) kept.0))
        m

  -- With a reliable engine, an open connection and the users table, isUserValid accepts a name
  -- that was just added by addUser exactly if it holds no quote.
  pub is_user_valid-add_user :
      IsReliable e
      → (m : DbManager e) (u : Text) → HasUsers e m
      → (is_user_valid e (add_user e m u).1 u).0 ≡ not (has_quote u)
  is_user_valid-add_user r m u h =
      let a = add_user_lem r m u h in
      is_user_valid_lem e r (add_user e m u).1 u a.1
      ∙ ap (λ us. any (has_name u) us && not (has_quote u)) a.2
      ∙ known_after u (tables_of e m)
