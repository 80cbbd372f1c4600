-- ===== src/Client/Requests.antt =====
-- What client/client.cpp makes of a line of the server, and of the settings that it has saved.
use easysync.Prelude.{
  ℕ, ◌≡◌, refl, Bool, false, ◌&&◌, some, [], ◌∷◌, ◌++◌, ◌==◌, ap, ◌∙◌, arith, All-of-any,
  All-append, append_assoc, if◌then◌else◌, not, length-append, Bool-cases, inl, inr,
}
use easysync.Text.{Text, text_eq, is_empty, codes}
use easysync.Text.Format.{chop, chop_from, chop_from-append}
use easysync.Text.Scan.{Unicode, IsName, leading_number, bracketed_name, bracketed_skip, unwrap_lem}
use easysync.Server.Messages.{read_line, id_of, sync_request}
use easysync.Server.Protocol.{sync_request_text, NoNewline, read_line_whole}
use easysync.Client.Watcher.{Folders}
use easysync.Client.State.{Client, Form, disconnects, emit}
use easysync.Client.{
  install_watcher, on_request, on_message, read_buffered, read_from_server, start_synchronisation,
  write_settings, check_settings, connect_to_server, handle_save_button, stop_watcher,
}

-- A request without its newline.
abbrev request_line : Text → Text
request_line h = codes "2. <" ++ (h ++ codes ">, sync is needed.")

request_line-NoNewline : (h : Text) → NoNewline h → NoNewline (request_line h)
request_line-NoNewline h w =
    let free = λ (s : Text). All-of-any (λ c. c == 10) s in
    All-append (λ c. (c == 10) ≡ false) (codes "2. <") _ (free (codes "2. <") refl)
      (All-append (λ c. (c == 10) ≡ false) h _ w (free (codes ">, sync is needed.") refl))

sync_request-eq-line : (h : Text) → sync_request h ≡ request_line h ++ 10 ∷ []
sync_request-eq-line h = sync_request_text h ∙ simp append_assoc

read_line-sync_request :
    (h rest : Text)
    → NoNewline h
    → read_line (sync_request h ++ rest) ≡ some (request_line h ++ 10 ∷ [], rest)
read_line-sync_request h rest w =
    ap (λ g. read_line (g ++ rest)) (sync_request-eq-line h)
    ∙ ap read_line (append_assoc (request_line h) (10 ∷ []) rest)
    ∙ read_line_whole (request_line h) rest (request_line-NoNewline h w)

pub chop-line : (s : Text) (n : ℕ) → chop (s ++ n ∷ []) 1 ≡ s
chop-line s n =
    ap (λ k. chop_from k (s ++ n ∷ [])) (omega (arith, length-append s (n ∷ [])))
    ∙ chop_from-append s (n ∷ [])

module _ (u : Unicode) (disk : Folders) (h : Text) (c : Client) where
  on_request-name :
      (rest : Text)
      → on_request disk (some (b'<' ∷ (h ++ b'>' ∷ []), rest)) c
        ≡ (if text_eq h c.hostname then start_synchronisation disk false c else emit disconnects c)
  on_request-name rest =
      rw (unwrap_lem h)
        (elim (Bool-cases (text_eq h c.hostname)) [ inl p ↦ rw p refl | inr p ↦ rw p refl ])

  on_message-request :
      IsName u h
      → on_message u disk (id_of u (request_line h)) (request_line h) c
        ≡ (if text_eq h c.hostname then start_synchronisation disk false c else emit disconnects c)
  unfolding id_of leading_number
  on_message-request w =
      let rest : Text = codes ", sync is needed." in
      ap (λ o. on_request disk o c)
        (bracketed_skip u (codes "2. ") (b'<' ∷ (h ++ b'>' ∷ rest))
            (All-of-any (λ c. c == b'<') (codes "2. ") refl)
          ∙ bracketed_name u h rest w)
      ∙ on_request-name rest

  -- A client that reads the server's request to synchronise, for a host whose name is a name of
  -- the protocol without a newline, starts a synchronisation that notifies no one if the name is
  -- its own and disconnects otherwise, and what stands behind the request stays in the buffer.
  pub read_from_server-sync_request :
      (rest : Text)
      → IsName u h
      → NoNewline h
      → read_from_server u disk (sync_request h ++ rest) c ≡ (
        rest,
        if text_eq h c.hostname then start_synchronisation disk false c else emit disconnects c,
      )
  unfolding read_from_server
  read_from_server-sync_request rest w l =
      ap (λ o. read_buffered u disk o (sync_request h ++ rest) c) (read_line-sync_request h rest l)
      ∙ ap (λ m. (rest, on_message u disk (id_of u m) m c)) (chop-line (request_line h) 10)
      ∙ ap (λ d. (rest, d)) (on_message-request w)

-- A client that starts from the settings that another has written, with a user name in them, takes
-- over all five of its values and the whole form, and connects as the other would.
pub check_settings-write_settings :
    (local_host_name : Text) (c d : Client)
    → is_empty c.ui.username_edit ≡ false
    → let c' = write_settings c in
      let d' = check_settings local_host_name (record d { settings = c'.settings }) in
      (d'.username ≡ c'.username)
      × (d'.hostname ≡ c'.hostname)
      × (d'.sync_dir ≡ c'.sync_dir)
      × (d'.server_address ≡ c'.server_address)
      × (d'.port ≡ c'.port)
      × (d'.ui ≡ c.ui)
      × (d'.actions ≡ (connect_to_server (record d { ui = c.ui })).actions)
unfolding write_settings check_settings connect_to_server
check_settings-write_settings local_host_name c d named = ground arith

-- The four fields that have to be filled in.
abbrev pub is_complete : Form → Bool
is_complete f =
    not (is_empty f.username_edit)
    && not (is_empty f.server_address_edit)
    && not (is_empty f.syncdir_edit)
    && not (is_empty f.unison_profile_edit)

-- The save button writes the settings exactly if the four fields that have to be filled in are, and
-- otherwise leaves them as they were.
pub handle_save_button_lem :
    (disk : Folders) (c : Client)
    → (handle_save_button disk c).settings
      ≡ (if is_complete c.ui then (write_settings c).settings else c.settings)
unfolding handle_save_button write_settings connect_to_server install_watcher stop_watcher
handle_save_button_lem disk c = grind arith
