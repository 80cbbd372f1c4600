-- ===== src/DbManager/Voiding.antt =====
-- `voidConnection` of server/dbmanager.cpp and the hosts that it is not about.
use easysync.Prelude.{
  ℤ, minus_one, int_eq, ◌≡◌, refl, Bool, false, ◌&&◌, ap, ◌∙◌, arith, any, any-map, if◌then◌else◌,
  Bool-cases, inl, inr, fun_ext,
}
use easysync.Text.{Text, text_eq, text_eq_iff}
use easysync.Database.Schema.{Tables, Host, host_rows}
use easysync.Database.Statements.{updated, void_socket, is_host}
use easysync.Database.Engine.{Engine}
use easysync.DbManager.{DbManager, void_connection}
use easysync.DbManager.Execution.{tables_of, DbManager-cases, tables_done, tables_failed}

abbrev at_socket : Text → ℤ → Host → Bool
at_socket h k r = is_host h r && int_eq r.socket_id k

-- A row of host `h` holds the socket number `k`.
abbrev pub found : Tables → Text → ℤ → Bool
found t h k = any (λ r. is_host h r && int_eq r.socket_id k) (host_rows t)

-- Voiding the connection of one host is not seen at the rows of another name.
void_row :
    (hostname h : Text) (k : ℤ) (r : Host)
    → text_eq hostname h ≡ false
    → let r' = if is_host hostname r then record r { socket_id = minus_one } else r in
      (is_host h r' && int_eq r'.socket_id k) ≡ (is_host h r && int_eq r.socket_id k)
void_row hostname h k r ne =
    ground
      (arith, text_eq_iff r.hostname hostname, text_eq_iff r.hostname h, text_eq_iff hostname h)

module _ (e : Engine) where
  pub void_connection-other_host :
      (m : DbManager e) (hostname h : Text) (k : ℤ)
      → text_eq hostname h ≡ false
      → found (tables_of e (void_connection e m hostname)) h k ≡ found (tables_of e m) h k
  unfolding void_connection updated
  void_connection-other_host m hostname h k ne =
      DbManager-cases e
        (λ m. found (tables_of e (void_connection e m hostname)) h k ≡ found (tables_of e m) h k)
        (λ path. refl)
        (λ path d. elim (Bool-cases (e.exec d (void_socket hostname)).ok) [
          | inl p ↦
              ap (λ t. found t h k) (tables_done e d (void_socket hostname) p)
              ∙ any-map (at_socket h k)
                  (λ r. if is_host hostname r then record r { socket_id = minus_one } else r)
                  (host_rows (e.tables d))
              ∙ ap (λ q. any q (host_rows (e.tables d))) (fun_ext (λ r. void_row hostname h k r ne))
          | inr p ↦ ap (λ t. found t h k) (tables_failed e d (void_socket hostname) p)
        ])
        m
