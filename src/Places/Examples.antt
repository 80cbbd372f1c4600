-- ===== src/Places/Examples.antt =====
-- The theorem on the places of sockets at a concrete history: a keep-alive message and a connection, and
-- then the laptop notifies.
use easysync.Prelude.{◌≡◌, refl, false, [], ◌∷◌, ◌==◌, All-of-any, arith}
use easysync.Text.{codes}
use easysync.Database.Reference.{reference-IsReliable}
use easysync.Server.{Server, read_client, handle_line, handle_new_connection}
use easysync.Server.Lists.{returns}
use easysync.Server.Messages.{read_line, is_pingpong}
use easysync.Server.Totality.{Returns}
use easysync.Marks.History.{begin, then_step, reads, connects}
use easysync.Places.History.{handle_line-NoneLeft}
use easysync.Fixtures.{ascii_only, alice, bob, two_tables, engine, server}

abbrev pinged : Server engine
pinged = record server { client_last_seen = 86370000 ∷ 5000 ∷ [] }

ping_run : read_client engine ascii_only 9 5000 (codes "pingpong\n") server ≡ returns ([], pinged)
unfolding read_client read_line is_pingpong
ping_run = refl

abbrev joined : Server engine
joined = handle_new_connection engine (record pinged { pending = 11 ∷ [] })

handle_line-NoneLeft_example : Returns (
    handle_line engine ascii_only 9 6000
      (codes "3. Robin, notify all. <alice> from <laptop>\n")
      joined)
unfolding handle_new_connection
handle_line-NoneLeft_example =
    handle_line-NoneLeft engine (reference-IsReliable false two_tables) ascii_only server joined _
      (refl, refl, refl)
      (All-of-any (λ c. c == b'%') alice refl, (All-of-any (λ c. c == b'%') bob refl, tt))
      (record { names = refl; times = refl }) (omega arith, (omega arith, tt))
      (then_step (then_step begin (reads 9 5000 (codes "pingpong\n") [] ping_run))
        (connects (11 ∷ [])))
      ((tt, tt), tt) 9 6000 1 (codes "3. Robin, notify all. <alice> from <laptop>\n") refl
