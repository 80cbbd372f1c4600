-- ===== src/FileWatcher/Rounds.antt =====
-- One time-out of the polling engine of client/qt/mfilesystemwatcher.cpp, for one path: whether it is
-- kept, and whether a signal says that it is gone.
use easysync.Prelude.{
  ◌≡◌, refl, Bool, true, false, not, ◌&&◌, ◌||◌, [], ◌∷◌, ◌++◌, arith, ap, ◌∙◌, any, any-append,
}
use easysync.Text.{Text, text_eq, text_eq_iff}
use easysync.FileWatcher.Hash.{Entry, Hash, contains}
use easysync.FileWatcher.System.{FileSystem}
use easysync.FileWatcher.Notifying.{Signal}
use easysync.FileWatcher.Polling.{FileInfo, round, rounds}

-- A path is kept if it still exists, and reported as removed if it does not.
module _ (fs : FileSystem) (place : Text → Text) (q : Text) where
  contains-append :
      (g h : Hash Text FileInfo)
      → contains text_eq q (g ++ h) ≡ (contains text_eq q g || contains text_eq q h)
  contains-append [] h = refl
  contains-append (x ∷ g) h = ground (arith, contains-append g h)

  same_path : (k : Text) → text_eq k q ≡ true → fs.exists (place k) ≡ fs.exists (place q)
  same_path k e = ap (λ k. fs.exists (place k)) ((text_eq_iff k q).0 e)

  kept_one :
      (signal : Text → Bool → Signal) (x : Entry Text FileInfo)
      → contains text_eq q (round fs signal place x).kept ≡ (text_eq x.key q && fs.exists (place q))
  kept_one signal x = ground (arith, same_path x.key)

  pub kept_lem :
      (signal : Text → Bool → Signal) (h : Hash Text FileInfo)
      → contains text_eq q (rounds fs signal place h).kept
        ≡ (contains text_eq q h && fs.exists (place q))
  kept_lem signal [] = refl
  kept_lem signal (x ∷ h) =
      contains-append (round fs signal place x).kept (rounds fs signal place h).kept
      ∙ ground (arith, kept_one signal x, kept_lem signal h)

  module _ (signal : Text → Bool → Signal) (gone : Signal → Bool) where
    pub gone_lem :
        ((k : Text) (b : Bool) → gone (signal k b) ≡ (b && text_eq q k))
        → (h : Hash Text FileInfo)
        → any gone (rounds fs signal place h).signals
          ≡ (contains text_eq q h && not (fs.exists (place q)))
    gone_lem is_gone [] = refl
    gone_lem is_gone (x ∷ h) =
        any-append gone (round fs signal place x).signals (rounds fs signal place h).signals
        ∙ ground (
          arith,
          is_gone x.key true,
          is_gone x.key false,
          same_path x.key,
          text_eq_iff q x.key,
          text_eq_iff x.key q,
          gone_lem is_gone h,
        )

    pub none_gone :
        ((k : Text) (b : Bool) → gone (signal k b) ≡ false)
        → (h : Hash Text FileInfo) → any gone (rounds fs signal place h).signals ≡ false
    none_gone other [] = refl
    none_gone other (x ∷ h) =
        any-append gone (round fs signal place x).signals (rounds fs signal place h).signals
        ∙ ground (arith, other x.key true, other x.key false, none_gone other h)
