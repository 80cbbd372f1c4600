-- ===== src/DbManager/Queries.antt =====
-- The queries of server/dbmanager.cpp that are put together from text: `arg` fills a quoted value
-- into a template. An SQL reader finds the values again as the literals of the text.
use easysync.Prelude.{◌≡◌, refl, [], ◌∷◌, ◌++◌, ap, ◌∙◌}
use easysync.Text.{Text, codes}
use easysync.Text.Format.{arg, NoPercent, substitute-append, arg_at, lowest-append}
use easysync.Database.Literals.{outside, closing, lex_literal, literals, literals_of, wrap, NoQuote}

-- isUserValid
unfoldable pub valid_query : Text → Text
valid_query safe = arg (codes "SELECT username FROM users WHERE username='%1';") safe

-- setNotifyAllExcept
pub notify_query : Text → Text
notify_query safe =
    codes "UPDATE hosts SET must_sync = 1 WHERE hostname != :hostname"
    ++ arg (codes " AND user_id = (SELECT id from users WHERE username = '%1');") safe

-- clientsToSync
pub clients_query : Text → Text
clients_query safe =
    arg
      (codes "SELECT socket_id, hostname FROM hosts, users WHERE must_sync = '1' "
        ++ codes
            "AND socket_id != '-1' AND users.id = (SELECT id FROM users WHERE username = '%1');")
      safe

-- isSyncNeeded
pub needed_query : Text → Text
needed_query safe =
    arg (codes "SELECT must_sync FROM hosts WHERE hostname = '%1' AND must_sync = '1'") safe

-- addHostname: two values, filled in one after the other.
abbrev registered_template : Text
registered_template =
    codes "SELECT users.username FROM users, hosts WHERE username= '%1' AND hostname = '%2'"

unfoldable pub registered_query : Text → Text → Text
registered_query safe_username safe_hostname =
    arg (arg registered_template safe_username) safe_hostname

abbrev before_owner : Text
before_owner =
    codes "UPDATE hosts SET must_sync = 1 WHERE hostname != :hostname"
    ++ codes " AND user_id = (SELECT id from users WHERE username = '"

abbrev before_client : Text
before_client =
    codes "SELECT socket_id, hostname FROM hosts, users WHERE must_sync = '1' "
    ++ codes "AND socket_id != '-1' AND users.id = (SELECT id FROM users WHERE username = '"

module _ (s : Text) (h : NoQuote s) where
  -- A value without a quote is put into the query of isUserValid so that an SQL reader finds
  -- exactly one literal in the text, the value itself.
  pub literals-valid_query : literals (valid_query s) ≡ s ∷ []
  unfolding valid_query arg literals
  literals-valid_query =
      ap (λ f. literals_of (wrap outside (codes "SELECT username FROM users WHERE username='") f))
        (lex_literal s (codes ";") [] h refl)

  pub literals-notify_query : literals (notify_query s) ≡ s ∷ []
  unfolding notify_query arg literals
  literals-notify_query =
      ap (λ f. literals_of (wrap outside before_owner f)) (lex_literal s (codes ");") [] h refl)

  pub literals-clients_query : literals (clients_query s) ≡ codes "1" ∷ codes "-1" ∷ s ∷ []
  unfolding clients_query arg literals
  literals-clients_query =
      ap (λ f. literals_of (wrap outside before_client f)) (lex_literal s (codes ");") [] h refl)

  pub literals-needed_query : literals (needed_query s) ≡ s ∷ codes "1" ∷ []
  unfolding needed_query arg literals
  literals-needed_query =
      ap
        (λ f. literals_of (wrap outside (codes "SELECT must_sync FROM hosts WHERE hostname = '") f))
        (lex_literal s (codes " AND must_sync = '1'") (codes "1" ∷ []) h refl)

abbrev behind_username : Text
behind_username = codes "' AND hostname = '%2'"

abbrev before_username : Text
before_username = codes "SELECT users.username FROM users, hosts WHERE username= '"

-- The second `arg` looks for its marker in the first value too, so no `%` may stand there.
registered_query_text :
    (s t : Text)
    → NoPercent s
    → registered_query s t
      ≡ before_username ++ (s ++ (codes "' AND hostname = '" ++ (t ++ codes "'")))
unfolding registered_query arg
registered_query_text s t h =
    ap (λ o. arg_at o (before_username ++ (s ++ behind_username)) t)
      (lowest-append s behind_username h)
    ∙ ap (λ r. before_username ++ r) (substitute-append 2 t s behind_username h)

-- Two values without a quote, the first one without a percent sign, are put into the query of
-- addHostname so that an SQL reader finds exactly two literals in the text, the values in order.
pub literals-registered_query :
    (s t : Text)
    → NoQuote s
    → NoPercent s
    → NoQuote t
    → literals (registered_query s t) ≡ s ∷ t ∷ []
unfolding literals
literals-registered_query s t hs ps ht =
    ap literals (registered_query_text s t ps)
    ∙ ap (λ f. literals_of (wrap outside before_username f))
        (lex_literal s (codes " AND hostname = '" ++ (t ++ codes "'")) (t ∷ []) hs
          (ap (wrap closing (codes " AND hostname = '")) (lex_literal t [] [] ht refl)))
