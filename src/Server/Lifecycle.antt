-- ===== src/Server/Lifecycle.antt =====
-- `pause`, `resume`, `stop` and `handleNewConnection` of server/easysyncserver.cpp.
use easysync.Prelude.{
  ℕ, ◌≡◌, refl, false, List, [], ◌∷◌, ◌++◌, ap, ◌∙◌, sym, append_assoc, append-nil,
}
use easysync.Text.{Text}
use easysync.Text.Scan.{Unicode}
use easysync.Database.Engine.{Engine}
use easysync.Server.Lists.{returns}
use easysync.Server.{Server, accept_each, handle_new_connection, read_client, pause, resume, stop}

module _ (e : Engine) where
  accept_each_lem :
      (new : List ℕ) (s : Server e)
      → accept_each e new s ≡ record s { pending = []; wired = s.wired ++ new }
  accept_each_lem [] s = ap (λ l. record s { pending = []; wired = l }) (sym (append-nil s.wired))
  accept_each_lem (c ∷ new) s =
      accept_each_lem new (record s { wired = s.wired ++ c ∷ [] })
      ∙ ap (λ l. record s { pending = []; wired = l }) (append_assoc s.wired (c ∷ []) new)

  -- A paused server leaves its input in the buffer and its new connections waiting. Once it is
  -- resumed it takes all of them, in their order, at the next signal.
  pub handle_new_connection-resume :
      (u : Unicode) (socket now : ℕ) (buffer : Text) (s : Server e)
      → (read_client e u socket now buffer (pause e s) ≡ returns (buffer, pause e s))
        × (handle_new_connection e (pause e s) ≡ pause e s)
        × (handle_new_connection e (resume e (pause e s))
            ≡ record s { disabled = false; pending = []; wired = s.wired ++ s.pending })
  unfolding read_client handle_new_connection pause resume
  handle_new_connection-resume u socket now buffer s =
      (refl, refl, accept_each_lem s.pending (record s { disabled = false }))

  -- Neither does a stopped server read or accept.
  pub read_client-stop :
      (u : Unicode) (socket now : ℕ) (buffer : Text) (s : Server e)
      → (read_client e u socket now buffer (stop e s) ≡ returns (buffer, stop e s))
        × (handle_new_connection e (stop e s) ≡ stop e s)
  unfolding read_client handle_new_connection stop
  read_client-stop u socket now buffer s = (refl, refl)
