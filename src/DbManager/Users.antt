-- ===== src/DbManager/Users.antt =====
-- Who may use the server: `isUserValid` and `addUser` of server/dbmanager.cpp.
use easysync.Prelude.{
  ◌≡◌, refl, Bool, true, false, not, ◌&&◌, List, [], ◌∷◌, map, filter, any, arith, ap, get_or,
  Bool-cases, inl, inr,
}
use easysync.Text.{Text, text_eq, text_eq_iff, text_eq_refl}
use easysync.Database.Literals.{literal}
use easysync.Database.Schema.{Tables, User, username_row, user_rows, has_name, exists}
use easysync.Database.Statements.{Statement, valid, updated, answer, select_username}
use easysync.Database.Engine.{Engine, IsReliable}
use easysync.DbManager.{DbManager, first_is, is_connected, is_user_valid}
use easysync.DbManager.Quote.{
  sql_quote, has_quote, sql_quote-NoQuote, sql_quote-eq_self, sql_quote-ne_self,
}
use easysync.DbManager.Queries.{valid_query, literals-valid_query}
use easysync.DbManager.Execution.{tables_of, DbManager-cases, rows_done, tables_kept}

-- A user of that name is in the table.
abbrev pub is_known : Text → Tables → Bool
is_known username t = any (has_name username) (user_rows t)

-- The literal of isUserValid's query is the quoted name.
valid_literal : (u : Text) → literal (valid_query (sql_quote u)) 0 ≡ sql_quote u
valid_literal u =
    ap (λ ts. get_or ts 0 []) (literals-valid_query (sql_quote u) (sql_quote-NoQuote u))

quoted_is_self : (u : Text) → text_eq (sql_quote u) u ≡ not (has_quote u)
quoted_is_self u = elim (Bool-cases (has_quote u)) [
  | inl p ↦ rw p (ground (arith, sql_quote-ne_self u p, text_eq_iff (sql_quote u) u))
  | inr p ↦ rw (p, sql_quote-eq_self u p) (text_eq_refl u)
]

first_is-rows :
    (q u : Text) (us : List User)
    → first_is u (map (λ r. username_row r.username) (filter (has_name q) us))
      ≡ (any (has_name q) us && text_eq q u)
first_is-rows q u [] = refl
first_is-rows q u (r ∷ us) = ground (arith, text_eq_iff r.username q, first_is-rows q u us)

abbrev lookup_name : Text → Statement
lookup_name u = select_username (literal (valid_query (sql_quote u)) 0)

plain_only :
    (u : Text) (t : Tables)
    → (is_known (sql_quote u) t && not (has_quote u)) ≡ (is_known u t && not (has_quote u))
plain_only u t = elim (Bool-cases (has_quote u)) [
  | inl p ↦ rw p (ground arith)
  | inr p ↦ rw (sql_quote-eq_self u p)
]

answer_lookup :
    (u : Text) (t : Tables)
    → first_is u (answer (lookup_name u) t) ≡ (is_known u t && not (has_quote u))
unfolding answer
answer_lookup u t =
    rw (valid_literal u, first_is-rows (sql_quote u) u (user_rows t), quoted_is_self u)
      (plain_only u t)

module _ (e : Engine) where
  open e use {Db, tables, exec}

  -- Whatever the engine does, a name that passes is in the table, and has no quote in it.
  pub is_user_valid-is_known :
      (m : DbManager e) (u : Text)
      → (is_user_valid e m u).0 ≡ true
      → (is_known u (tables_of e m) ≡ true) × (has_quote u ≡ false)
  unfolding is_user_valid
  is_user_valid-is_known m u =
      DbManager-cases e
        (λ m.
          (is_user_valid e m u).0 ≡ true
          → (is_known u (tables_of e m) ≡ true) × (has_quote u ≡ false))
        (λ path h. cc)
        (λ path d h. ground (arith, rows_done e d (lookup_name u), answer_lookup u (tables d))) m

  -- Checking a name changes nothing.
  pub tables-is_user_valid :
      (m : DbManager e) (u : Text)
      → (tables_of e (is_user_valid e m u).1 ≡ tables_of e m)
        × (is_connected e (is_user_valid e m u).1 ≡ is_connected e m)
  unfolding is_user_valid updated
  tables-is_user_valid m u =
      DbManager-cases e
        (λ m.
          (tables_of e (is_user_valid e m u).1 ≡ tables_of e m)
          × (is_connected e (is_user_valid e m u).1 ≡ is_connected e m))
        (λ path. (refl, refl)) (λ path d. (tables_kept e d (lookup_name u) refl, refl)) m

  -- The connection is open and the table `users` is there.
  abbrev pub HasUsers : DbManager e → Type 0
  HasUsers m = (is_connected e m ≡ true) × (exists (tables_of e m).users ≡ true)

  -- With a reliable engine, an open connection and the users table, isUserValid accepts exactly
  -- the names in the table that hold no quote.
  pub is_user_valid_lem :
      IsReliable e
      → (m : DbManager e) (u : Text) → HasUsers m
      → (is_user_valid e m u).0 ≡ (is_known u (tables_of e m) && not (has_quote u))
  unfolding is_user_valid valid
  is_user_valid_lem r m u =
      DbManager-cases e
        (λ m.
          HasUsers m → (is_user_valid e m u).0 ≡ (is_known u (tables_of e m) && not (has_quote u)))
        (λ path h. cc)
        (λ path d h.
          let done : (exec d (lookup_name u)).ok ≡ true = r d (lookup_name u) h.1 in
          rw (done, rows_done e d (lookup_name u) done) (answer_lookup u (tables d)))
        m
