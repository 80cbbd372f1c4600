-- ===== src/Exchange.antt =====
-- A client (client/client.cpp) and the server (server/easysyncserver.cpp) over one connection: what one
-- of them has written is what the other finds in its buffer.
pub mod Greeting
pub mod Over
pub mod Numbers
pub mod Requests
pub mod Notify
pub mod Examples
use easysync.Prelude.{
  ℕ, ◌≡◌, refl, Bool, true, false, List, [], ◌∷◌, ◌++◌, ◌==◌, ==_refl, ap, ◌∙◌, sym, if◌then◌else◌,
  Bool-cases, inl, inr, append-nil, append_assoc,
}
use easysync.Text.{Text, codes}
use easysync.Text.Scan.{Unicode}
use easysync.Database.Schema.{Tables, exists}
use easysync.Database.Engine.{Engine, IsReliable}
use easysync.DbManager.{is_user_valid}
use easysync.DbManager.Execution.{tables_of}
use easysync.DbManager.Quote.{has_quote}
use easysync.DbManager.Users.{is_known, tables-is_user_valid}
use easysync.DbManager.Sync.{HasTables}
use easysync.DbManager.Register.{hosts_with}
use easysync.Server
use easysync.Server.{Server, register, read_client}
use easysync.Server.Lists.{returns}
use easysync.Server.Messages.{greeting, sync_request, read_line}
use easysync.Server.Registration.{
  IsPlainGreeting, must_sync, requests, read_client-greeting, register-actions,
}
use easysync.Text.Wire.{Wire}
use easysync.Text.Format.{arg}
use easysync.Client.State
use easysync.Client.State.{Client, emit, set_icon, starts, sync_in_progress_icon}
use easysync.Client.Watcher.{Folders}
use easysync.Client.Connecting.{stop_watcher}
use easysync.Client.{send_greetings, read_from_server, start_synchronisation}
use easysync.Client.Requests.{read_from_server-sync_request}

-- The client has begun a synchronisation that is to notify no one: unison is started with its profile,
-- and the folders are not watched until it ends.
abbrev pub begun : Folders → Client → Client
begun disk c = emit (starts (arg (codes "unison %1") c.ui.unison_profile_edit)) (
    stop_watcher disk (
      set_icon sync_in_progress_icon
        (record c { sync_in_progress = true; notify_all_after_sync = false })))

pub start_synchronisation-begun :
    (disk : Folders) (c : Client)
    → c.sync_in_progress ≡ false
    → start_synchronisation disk false c ≡ begun disk c
unfolding start_synchronisation
start_synchronisation-begun disk c idle = rw idle refl

module _ (w : Wire) where
  -- What the server finds in its buffer of what a client has written to its socket.
  abbrev pub sent : List State.Action → Text
  sent [] = []
  sent (State.writes text ∷ actions) = w.to_server text ++ sent actions
  sent (_ ∷ actions) = sent actions

  -- What the client at a socket finds in its buffer of what the server has written to it.
  abbrev pub written : ℕ → List Server.Action → Text
  written socket [] = []
  written socket (Server.writes other text ∷ actions) =
      if other == socket then w.to_client text ++ written socket actions else written socket actions
  written socket (_ ∷ actions) = written socket actions

  pub written-append :
      (socket : ℕ) (xs ys : List Server.Action)
      → written socket (xs ++ ys) ≡ written socket xs ++ written socket ys
  written-append socket [] ys = refl
  written-append socket (Server.writes other text ∷ xs) ys = elim (Bool-cases (other == socket)) [
    | inl p ↦ rw p (
        ap (λ t. w.to_client text ++ t) (written-append socket xs ys)
        ∙ sym (append_assoc (w.to_client text) (written socket xs) (written socket ys)))
    | inr p ↦ rw p (written-append socket xs ys)
  ]
  written-append socket (Server.disconnects other ∷ xs) ys = written-append socket xs ys
  written-append socket (Server.deletes other ∷ xs) ys = written-append socket xs ys
  written-append socket (Server.closes ∷ xs) ys = written-append socket xs ys

  pub sent-append : (xs ys : List State.Action) → sent (xs ++ ys) ≡ sent xs ++ sent ys
  sent-append [] ys = refl
  sent-append (State.writes text ∷ xs) ys =
      ap (λ t. w.to_server text ++ t) (sent-append xs ys)
      ∙ sym (append_assoc (w.to_server text) (sent xs) (sent ys))
  sent-append (State.starts text ∷ xs) ys = sent-append xs ys
  sent-append (State.warns text ∷ xs) ys = sent-append xs ys
  sent-append (State.connects address port ∷ xs) ys = sent-append xs ys
  sent-append (State.single_shot delay slot ∷ xs) ys = sent-append xs ys
  sent-append (State.aborts ∷ xs) ys = sent-append xs ys
  sent-append (State.disconnects ∷ xs) ys = sent-append xs ys
  sent-append (State.shows ∷ xs) ys = sent-append xs ys
  sent-append (State.closes ∷ xs) ys = sent-append xs ys
