-- ===== src/Client/Reconnect.antt =====
-- How class Client of client/client.cpp gets its connection back: the states that its signals and the
-- timers of its own reach, and what is left to try in all of them.
use easysync.Prelude.{
  ℕ, ◌+◌, ◌≤◌, ◌≡◌, refl, Bool, true, false, not, ◌&&◌, ◌||◌, arith, ltb, Bool-cases, inl, inr,
}
use easysync.Text.{Text, is_empty}
use easysync.Server.Messages.{read_line}
use easysync.Client.Watcher.{Folders}
use easysync.Client.State.{Client, Form, Settings}
use easysync.Client.{
  construct, handle_sync_is_finished, handle_sync_timer, read_from_server, check_settings,
  connect_to_server,
}
use easysync.Client.Phases.{
  Signal, handle, one_if, directory_changed, sync_timer, keep_alive, ready_read, connected, saved,
  disconnected, online_changed, connect_timer, check_timer, selected, activated,
}
use easysync.Client.Retries.{
  is_retry, is_check, total, Link, link, checked, link-connect_to_server,
  link-handle_socket_connected, link-handle_socket_disconnected, link-check_server_connection,
  link-handle_sync_is_finished, link-send_keep_alive, link-handle_directory_changed,
  link-select_directory, link-icon_activated, link-handle_save_button, link-read_buffered,
  link-start_synchronisation, link-online_state_changed,
}

-- The signals that have nothing to do with the network or with these timers.
abbrev pub is_plain : Signal → Bool
is_plain (disconnected b) = false
is_plain (online_changed b) = false
is_plain connect_timer = false
is_plain (check_timer a b) = false
is_plain _ = true

-- The states that a client reaches: how many of the timers of connectToServer and of
-- checkServerConnection have run out, and whether the network is there. A timer runs out only after
-- it was started; the network is what the slots are told of it; and when a check runs, a socket that
-- is connected has said so.
pub data Reaches (start : Client) (online : Bool) : ℕ → ℕ → Bool → Client → Type 0 where
  begin : Reaches start online 0 0 online start
  then_signal :
      {a b : ℕ} {o : Bool} {c : Client} (s : Signal) (disk : Folders)
      → is_plain s ≡ true
      → Reaches start online a b o c
      → Reaches start online a b o (handle s disk c)
  then_finish :
      {a b : ℕ} {o : Bool} {c : Client} (disk : Folders)
      → Reaches start online a b o c
      → Reaches start online a b o (handle_sync_is_finished disk c)
  then_disconnected :
      {a b : ℕ} {o : Bool} {c : Client} (disk : Folders)
      → Reaches start online a b o c
      → Reaches start online a b o (handle (disconnected o) disk c)
  then_online :
      {a b : ℕ} {o : Bool} {c : Client} (now : Bool) (disk : Folders)
      → Reaches start online a b o c
      → Reaches start online a b now (handle (online_changed now) disk c)
  then_retry :
      {a b : ℕ} {o : Bool} {c : Client} (disk : Folders)
      → ltb a (total is_retry c.actions) ≡ true
      → Reaches start online a b o c
      → Reaches start online (a + 1) b o (handle connect_timer disk c)
  then_check :
      {a b : ℕ} {o : Bool} {c : Client} (disk : Folders) (is_connected : Bool)
      → ltb b (total is_check c.actions) ≡ true
      → (is_connected && not c.socket_ready) ≡ false
      → Reaches start online a b o c
      → Reaches start online a (b + 1) o (handle (check_timer o is_connected) disk c)

-- The connection is there, or the network is not, or one of the timers is still to run out.
abbrev pub is_trying : ℕ → ℕ → Bool → Link → Bool
is_trying a b o l = l.ready || not o || ltb a l.retries || ltb b l.checks

record Trying (a b : ℕ) (o : Bool) (l : Link) : Type 0 where
  retries_le : a ≤ l.retries
  checks_le : b ≤ l.checks
  tried : is_trying a b o l ≡ true

module _ (a b : ℕ) (o : Bool) (l : Link) (t : Trying a b o l) where
  connected-Trying : Trying a b o (record l { ready = true })
  connected-Trying = record { retries_le = t.retries_le; checks_le = t.checks_le; tried = refl }

  checked-Trying : (a' : ℕ) (o' : Bool) → a' ≤ l.retries → Trying a' b o' (checked l)
  checked-Trying a' o' h = record {
    retries_le = h;
    checks_le = omega (arith, t.checks_le);
    tried = ground (arith, t.checks_le);
  }

  disconnected-Trying :
      Trying a b o (record { ready = false; retries = l.retries + one_if o; checks = l.checks })
  disconnected-Trying = elim (Bool-cases o) [
    | inl p ↦ record {
      retries_le = ground (arith, t.retries_le);
      checks_le = t.checks_le;
      tried = ground (arith, t.retries_le);
    }
    | inr p ↦ record {
      retries_le = ground (arith, t.retries_le);
      checks_le = t.checks_le;
      tried = ground (arith, t.retries_le);
    }
  ]

  offline-Trying : Trying a b false l
  offline-Trying = record {
    retries_le = t.retries_le;
    checks_le = t.checks_le;
    tried = ground arith;
  }

  check-Trying :
      (is_connected : Bool)
      → ltb b l.checks ≡ true
      → (is_connected && not l.ready) ≡ false
      → Trying a
          (b + 1)
          o
          (record l { retries = l.retries + one_if (not l.ready && o && not is_connected) })
  check-Trying is_connected h said = record {
    retries_le = ground (arith, t.retries_le);
    checks_le = ground arith;
    tried = ground (arith, t.retries_le);
  }

module _ (disk : Folders) (a b : ℕ) (o : Bool) (c : Client) (t : Trying a b o (link c)) where
  plain-Trying : (s : Signal) → is_plain s ≡ true → Trying a b o (link (handle s disk c))
  unfolding handle_sync_timer read_from_server
  plain-Trying directory_changed p = rw (link-handle_directory_changed disk c) t
  plain-Trying sync_timer p =
      rw (link-start_synchronisation disk true (record c { sync_timer_active = false })) t
  plain-Trying keep_alive p = rw (link-send_keep_alive disk c) t
  plain-Trying (ready_read u buffer) p =
      rw (link-read_buffered disk u (read_line buffer) buffer c) t
  plain-Trying connected p =
      rw (link-handle_socket_connected disk c) (connected-Trying a b o (link c) t)
  plain-Trying saved p = elim (link-handle_save_button disk c) [
    | inl q ↦ rw q t
    | inr q ↦ rw q (checked-Trying a b o (link c) t a o t.retries_le)
  ]
  plain-Trying (activated reason) p = rw (link-icon_activated disk reason c) t
  plain-Trying (selected dir) p = rw (link-select_directory disk dir c) t
  plain-Trying (disconnected b) p = cc
  plain-Trying (online_changed b) p = cc
  plain-Trying connect_timer p = cc
  plain-Trying (check_timer a b) p = cc

  online-Trying : (now : Bool) → Trying a b now (link (handle (online_changed now) disk c))
  online-Trying true =
      rw (link-online_state_changed disk true c)
        (checked-Trying a b o (link c) t a true t.retries_le)
  online-Trying false =
      rw (link-online_state_changed disk false c) (offline-Trying a b o (link c) t)

construct-Trying :
    (form : Form) (stored : Settings) (local_host_name : Text) (online : Bool)
    → is_empty stored.account_username ≡ false
    → Trying 0 0 online (link (construct form stored local_host_name))
unfolding construct check_settings connect_to_server
construct-Trying form stored local_host_name online h =
    rw h (record { retries_le = omega arith; checks_le = omega arith; tried = ground arith })

-- A client that starts with a stored user name, whether the network is there or not, never gives
-- up: whatever signals, ends of unison, losses of the connection and of the network it has seen,
-- and however many of its timers have run out, where no timer runs out that was not started and a
-- check that finds its socket connected comes after the signal that says so, then it has its
-- connection, or the network is not there, or a timer of connectToServer or checkServerConnection
-- is still to run out.
pub Reaches-is_trying :
    (form : Form) (stored : Settings) (local_host_name : Text) (online : Bool) (a b : ℕ) (o : Bool)
    (c : Client)
    → is_empty stored.account_username ≡ false
    → Reaches (construct form stored local_host_name) online a b o c
    → is_trying a b o (link c) ≡ true
Reaches-is_trying form stored local_host_name online a b o c h x = (trying x).tried
  where
    trying :
        {a b : ℕ} {o : Bool} {c : Client}
        → Reaches (construct form stored local_host_name) online a b o c
        → Trying a b o (link c)
    trying begin = construct-Trying form stored local_host_name online h
    trying (then_signal {a = a} {b = b} {o = o} {c = c} s disk p x) =
        plain-Trying disk a b o c (trying x) s p
    trying (then_finish {a = a} {b = b} {o = o} {c = c} disk x) =
        rw (link-handle_sync_is_finished disk c) (trying x)
    trying (then_disconnected {a = a} {b = b} {o = o} {c = c} disk x) =
        rw (link-handle_socket_disconnected disk o c)
          (disconnected-Trying a b o (link c) (trying x))
    trying (then_online {a = a} {b = b} {o = o} {c = c} now disk x) =
        online-Trying disk a b o c (trying x) now
    trying (then_retry {a = a} {b = b} {o = o} {c = c} disk p x) =
        rw (link-connect_to_server disk c)
          (checked-Trying a b o (link c) (trying x) (a + 1) o (ground arith))
    trying (then_check {a = a} {b = b} {o = o} {c = c} disk is_connected p q x) =
        rw (link-check_server_connection disk o is_connected c)
          (check-Trying a b o (link c) (trying x) is_connected p q)
