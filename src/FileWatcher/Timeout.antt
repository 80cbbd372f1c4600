-- ===== src/FileWatcher/Timeout.antt =====
-- timeout of the polling engine of client/qt/mfilesystemwatcher.cpp, twice on the same disk.
use easysync.Prelude.{
  ◌≡◌, refl, Bool, true, false, List, [], ◌∷◌, ◌++◌, arith, ap, ap₂, ◌∙◌, sym, Bool-cases, inl, inr,
  append_assoc,
}
use easysync.Text.{Text, text_eq_refl}
use easysync.FileWatcher.Hash.{Entry, Hash}
use easysync.FileWatcher.System.{FileSystem, texts_eq}
use easysync.FileWatcher.Notifying.{Signal, file_changed, directory_changed}
use easysync.FileWatcher.Polling.{
  FileInfo, file_info, differs, Poller, round, rounds, Round, both, timeout, slashed,
}

texts_eq_refl : (xs : List Text) → texts_eq xs xs ≡ true
texts_eq_refl [] = refl
texts_eq_refl (x ∷ xs) = rw (text_eq_refl x) (texts_eq_refl xs)

differs-file_info : (fs : FileSystem) (path : Text) → differs fs (file_info fs path) path ≡ false
unfolding differs file_info
differs-file_info fs path = ground (arith, texts_eq_refl (fs.entries path))

module _ (fs : FileSystem) (signal : Text → Bool → Signal) (place : Text → Text) where
  rounds-append :
      (g h : Hash Text FileInfo)
      → rounds fs signal place (g ++ h) ≡ both (rounds fs signal place g) (rounds fs signal place h)
  rounds-append [] h = refl
  rounds-append (x ∷ g) h =
      let r = round fs signal place x in
      let a = rounds fs signal place g in
      let b = rounds fs signal place h in
      ap (both r) (rounds-append g h)
      ∙ ap₂ (λ k s. record { kept = k; signals = s }) (sym (append_assoc r.kept a.kept b.kept))
          (sym (append_assoc r.signals a.signals b.signals))

  -- What one round has left is left by the next.
  rounds-round :
      (x : Entry Text FileInfo)
      → rounds fs signal place (round fs signal place x).kept
        ≡ record { kept = (round fs signal place x).kept; signals = [] }
  rounds-round x = elim (Bool-cases (fs.exists (place x.key))) [
    | inl e ↦ elim (Bool-cases (differs fs x.value (place x.key))) [
      | inl d ↦ rw (e, d, e, differs-file_info fs (place x.key)) refl
      | inr d ↦ rw (e, d, e, d) refl
    ]
    | inr e ↦ rw e refl
  ]

  rounds-rounds :
      (h : Hash Text FileInfo)
      → rounds fs signal place (rounds fs signal place h).kept
        ≡ record { kept = (rounds fs signal place h).kept; signals = [] }
  rounds-rounds [] = refl
  rounds-rounds (x ∷ h) =
      rounds-append (round fs signal place x).kept (rounds fs signal place h).kept
      ∙ ap₂ both (rounds-round x) (rounds-rounds h)

-- A second time-out of the polling engine on the same disk changes nothing and sends no signal.
pub timeout-timeout :
    (fs : FileSystem) (p : Poller) → timeout fs (timeout fs p).0 ≡ ((timeout fs p).0, [])
unfolding timeout
timeout-timeout fs p =
    ap₂
      (λ (f d : Round).
        (record p { polled_files = f.kept; polled_directories = d.kept }, f.signals ++ d.signals))
      (rounds-rounds fs file_changed (λ path. path) p.polled_files)
      (rounds-rounds fs directory_changed slashed p.polled_directories)
