-- ===== src/Tests/Servlets.antt =====
-- A dispatcher with two servlets, for dwframe/http/servlet.cc. A servlet is a number here.
use dwframe.Base.{ℕ, some, Bool, true, [], ◌∷◌}
use dwframe.Servlet.{Uri, hold, create, ServletDispatch, get_matched_servlet}
use dwframe.Servlet.Tables.{IsValid, MapLaws, dispatch-MapLaws}
use dwframe.Servlet.Matching.{Chosen, get_matched-Chosen}

abbrev dispatch : ServletDispatch ℕ
dispatch = record {
  datas = record { key = b'/' ∷ b'x' ∷ []; creator = hold 1 } ∷ [];
  globs = record { key = b'/' ∷ b'*' ∷ []; creator = create 2 } ∷ [];
  default = some 0;
}

dispatch-IsValid : IsValid dispatch
dispatch-IsValid = record { datas_unique = (tt, tt); globs_unique = (tt, tt) }

dispatch-MapLaws_example : MapLaws (b'/' ∷ []) (hold 3) dispatch
dispatch-MapLaws_example = dispatch-MapLaws (b'/' ∷ []) (hold 3) dispatch dispatch-IsValid

-- Stands for a pattern that matches all.
abbrev matches_all : Uri → Uri → Bool
matches_all pattern path = true

get_matched-Chosen_example :
    Chosen matches_all (b'/' ∷ []) dispatch (get_matched_servlet matches_all (b'/' ∷ []) dispatch)
get_matched-Chosen_example = get_matched-Chosen matches_all (b'/' ∷ []) dispatch
