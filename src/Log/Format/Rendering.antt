-- ===== src/Log/Format/Rendering.antt =====
-- What `LogFormatter` of dwframe/log.cc prints for a pattern.
use dwframe.Base.{ℕ, Bool, true, false, ◌&&◌, Option, none, some, List, [], ◌∷◌, ◌++◌}
use dwframe.Base.Text.{Text}
use dwframe.Log.Pattern.Printing.{Piece, plain, bare, braced}
use dwframe.Log.Format.Meanings.{meanings, meaning_of}
use dwframe.Log.Format.{LogEvent}

abbrev is_some : Option Text → Bool
is_some none = false
is_some (some t) = true

-- The text of a piece that has a name, and nothing for a name without a meaning.
abbrev pub said : Option Text → Text
said none = []
said (some t) = t

module _ (strftime : Text → ℕ → Text) (level : ℕ) (event : LogEvent) where
  -- Every name of the pieces has a meaning.
  abbrev pub known : List Piece → Bool
  known [] = true
  known (plain t ∷ ps) = known ps
  known (bare name ∷ ps) = is_some (meaning_of name [] (meanings strftime level event)) && known ps
  known (braced name fmt ∷ ps) =
      is_some (meaning_of name fmt (meanings strftime level event)) && known ps

  -- What each piece stands for, in order.
  abbrev pub rendered : List Piece → Text
  rendered [] = []
  rendered (plain t ∷ ps) = t ++ rendered ps
  rendered (bare name ∷ ps) =
      said (meaning_of name [] (meanings strftime level event)) ++ rendered ps
  rendered (braced name fmt ∷ ps) =
      said (meaning_of name fmt (meanings strftime level event)) ++ rendered ps
