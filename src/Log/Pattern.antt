-- ===== src/Log/Pattern.antt =====
-- The loop of `LogFormatter::init` in dwframe/log.cc that takes a pattern apart.
pub mod Printing
pub mod Fuel
use dwframe.Base.{
  ℕ, zero, suc, Bool, true, false, not, ◌&&◌, ◌||◌, List, [], ◌∷◌, ◌++◌, if◌then◌else◌, ◌==◌, leb,
  length,
}
use dwframe.Base.Text.{Text, codes}

-- An entry of `vec`: text of type 0, or a name with its format, of type 1.
pub data Segment : Type 0 where
  text : Text → Segment
  directive : Text → Text → Segment

-- `isalpha`, in the C locale.
abbrev pub is_alpha : ℕ → Bool
is_alpha c = (leb 65 c && leb c 90) || (leb 97 c && leb c 122)

-- Whether the inner loop stops at this byte, outside of a format.
abbrev pub stops : ℕ → Bool
stops c = not (is_alpha c) && (not (c == b'{') && not (c == b'}'))

-- What the inner loop ends with: a name, its format and what is left of the pattern, or a format that
-- is not closed.
pub data Scan : Type 0 where
  scanned : Text → Text → Text → Scan
  unclosed : Scan

-- The inner loop where `fmt_status` is 1: `fmt` has what stands behind the brace.
unfoldable pub scan_format : Text → Text → Text → Scan
scan_format name fmt [] = unclosed
scan_format name fmt (c ∷ s) =
    let rest = scan_format name (fmt ++ (c ∷ [])) s in
    if c == b'}' then scanned name fmt s else rest

-- The inner loop where `fmt_status` is 0: `name` has what stands behind the percent sign.
unfoldable pub scan_name : Text → Text → Scan
unfolding scan_format
scan_name name [] = scanned name [] []
scan_name name (c ∷ s) =
    let rest = scan_name (name ++ (c ∷ [])) s in
    if stops c then scanned name [] (c ∷ s) else if c == b'{' then scan_format name [] s else rest

-- `nstr` as an entry, if it is not empty.
abbrev pub flush : Text → List Segment → List Segment
flush [] segments = segments
flush (c ∷ nstr) segments = text (c ∷ nstr) ∷ segments

abbrev pub pattern_error : Text
pattern_error = codes "<<pattern_error>>"

-- The outer loop: what is left of the pattern, and `nstr`. It gives the entries and `error`. Each turn
-- goes a byte further at least.
unfoldable pub split_loop : ℕ → Text → Text → List Segment × Bool
unfolding scan_name
split_loop zero nstr pattern = ([], true)
split_loop (suc fuel) nstr [] = (flush nstr [], false)
split_loop (suc fuel) nstr (c ∷ s) =
    if c == b'%'
    then elim s [
      | [] ↦ (flush nstr (directive [] [] ∷ []), false)
      | d ∷ t ↦
          let escaped = split_loop fuel (nstr ++ codes "%") t in
          let again = split_loop fuel nstr (d ∷ t) in
          if d == b'%' then escaped else elim (scan_name [] (d ∷ t)) [
            | scanned name fmt rest ↦
                let after = split_loop fuel [] rest in
                (flush nstr (directive name fmt ∷ after.0), after.1)
            | unclosed ↦ (text pattern_error ∷ again.0, true)
          ]
    ]
    else split_loop fuel (nstr ++ (c ∷ [])) s

-- The entries of a pattern, and whether it is in error.
unfoldable pub split_pattern : Text → List Segment × Bool
unfolding split_loop
split_pattern pattern = split_loop (suc (length pattern)) [] pattern
