-- ===== src/Server/Reading.antt =====
-- `readClient` of server/easysyncserver.cpp as a whole: what is read, what stays, and the three lists.
use easysync.Prelude.{
  ℕ, ◌≡◌, refl, ◌⊎◌, Option, none, some, [], ◌∷◌, ◌++◌, ◌==◌, ap, ◌∙◌, sym, subst, arith, length,
  length-append, length-set, Bool-cases, inl, inr,
}
use easysync.Text.{Text}
use easysync.Text.Scan.{Unicode}
use easysync.Database.Engine.{Engine}
use easysync.Server.Lists.{Run, returns, out_of_range, ◌>>=◌}
use easysync.Server.Messages.{read_line, grow_line}
use easysync.Server.{Server, handle_line, read_client, read_buffered}
use easysync.Server.Changes.{
  Clients, Ensures, Change, kept, seen, joined, clients, Ensures-if, join, handle_line-Ensures,
}

-- One host name and one time for each connection.
pub record IsAligned (c : Clients) : Type 0 where
  pub names : length c.names ≡ length c.connections
  pub times : length c.times ≡ length c.connections

join-IsAligned :
    (socket : ℕ) (hostname : Text) (now : ℕ) (c : Clients)
    → IsAligned c
    → IsAligned (join socket hostname now c)
join-IsAligned socket hostname now c a = omega (
  arith,
  length-append c.connections (socket ∷ []),
  length-append c.names (hostname ∷ []),
  length-append c.times (now ∷ []),
)

grow_line-eq-some :
    (c : ℕ) (o : Option (Text × Text)) (line rest : Text)
    → grow_line c o ≡ some (line, rest)
    → (l : Text) × (o ≡ some (l, rest)) × (line ≡ c ∷ l)
grow_line-eq-some c none line rest h = cc
grow_line-eq-some c (some (l, r)) line rest h = (l, ground arith, ground arith)

-- Reading a line loses nothing.
pub read_line-append :
    (buffer line rest : Text) → read_line buffer ≡ some (line, rest) → line ++ rest ≡ buffer
unfolding read_line
read_line-append [] line rest h = ground arith
read_line-append (c ∷ s) line rest h = elim (Bool-cases (c == 10)) [
  | inl p ↦ ground arith
  | inr p ↦
      let (l, o, q) = grow_line-eq-some c (read_line s) line rest (rw p at h) in
      ap (λ t. t ++ rest) q ∙ ap (◌∷◌ c) (read_line-append s l rest o)
]

module _ (e : Engine) where
  pub Change-IsAligned :
      {socket now : ℕ} {s s' : Server e}
      → Change e socket now s s'
      → IsAligned (clients e s)
      → IsAligned (clients e s')
  Change-IsAligned (kept p) a = subst IsAligned (sym p) a
  Change-IsAligned {now} {s} (seen i q p) a =
      subst IsAligned (sym p) (omega (arith, length-set s.client_last_seen i now))
  Change-IsAligned {socket} {now} {s} (joined username hostname k h p) a =
      subst IsAligned (sym p) (join-IsAligned socket hostname now (clients e s) a)

  -- What a returning readClient has done.
  pub record Read (socket now : ℕ) (buffer : Text) (s : Server e) (r : Text × Server e)
      : Type 0 where
    pub line : Text
    pub conserved : line ++ r.0 ≡ buffer
    pub taken : (line ≡ []) ⊎ (read_line buffer ≡ some (line, r.0))
    pub change : Change e socket now s r.1

  module _ (u : Unicode) (socket now : ℕ) where
    Ensures-after :
        (m : Run (Server e)) (buffer line rest : Text) (s : Server e)
        → read_line buffer ≡ some (line, rest)
        → Ensures (Change e socket now s) m
        → Ensures (Read socket now buffer s) (m >>= λ s'. returns (rest, s'))
    Ensures-after (returns s') buffer line rest s p c = record {
      line = line;
      conserved = read_line-append buffer line rest p;
      taken = inr p;
      change = c;
    }
    Ensures-after out_of_range buffer line rest s p c = tt

    read_client-Ensures :
        (buffer : Text) (s : Server e)
        → Ensures (Read socket now buffer s) (read_client e u socket now buffer s)
    unfolding read_client
    read_client-Ensures buffer s =
        Ensures-if (Read socket now buffer s) s.disabled (returns (buffer, s))
          (read_buffered e u socket now (read_line buffer) buffer s)
          (record { line = []; conserved = refl; taken = inl refl; change = kept refl })
          (go (read_line buffer) refl)
      where
        go :
            (o : Option (Text × Text))
            → read_line buffer ≡ o
            → Ensures (Read socket now buffer s) (read_buffered e u socket now o buffer s)
        go none p = record { line = []; conserved = refl; taken = inl refl; change = kept refl }
        go (some (line, rest)) p =
            Ensures-after (handle_line e u socket now line s) buffer line rest s p
              (handle_line-Ensures e socket now u line s)

    -- Where readClient returns, it has taken the first line, or nothing, from the front of the
    -- buffer, the rest stays, and the lists of clients have changed as a line of that socket
    -- may change them.
    pub read_client-Read :
        (buffer : Text) (s : Server e) (r : Text × Server e)
        → read_client e u socket now buffer s ≡ returns r
        → Read socket now buffer s r
    read_client-Read buffer s r p =
        subst (Ensures (Read socket now buffer s)) p (read_client-Ensures buffer s)

    -- Whatever a client sends, where readClient returns from aligned lists they are aligned
    -- again: there is one host name and one time for each connection.
    pub read_client-IsAligned :
        (buffer : Text) (s : Server e) (r : Text × Server e)
        → IsAligned (clients e s)
        → read_client e u socket now buffer s ≡ returns r
        → IsAligned (clients e r.1)
    read_client-IsAligned buffer s r a p =
        let done = read_client-Read buffer s r p in Change-IsAligned done.change a
