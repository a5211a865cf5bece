-- ===== src/Log/Format.antt =====
-- The items of `LogFormatter` in dwframe/log.cc: how `init` makes them of the entries of a pattern and
-- what each one prints. `strftime` on the local time is a parameter: from a format and a time to the
-- text in a buffer of 64 bytes, for the formats and times whose text fits in it. A line number is not negative.
pub mod Meanings
pub mod Rendering
use dwframe.Base.{
  ℕ, Bool, true, false, ◌&&◌, ◌||◌, Option, none, some, List, [], ◌∷◌, ◌++◌, if◌then◌else◌, ltb,
  leb,
}
use dwframe.Base.Text.{Text, codes, decimal, same_text}
use dwframe.Log.Level.{level_to_string}
use dwframe.Log.Pattern.{Segment, text, directive, split_pattern}

-- `LogEvent`; of its logger, the name.
pub record LogEvent : Type 0 where
  pub file : Text
  pub line : ℕ
  pub elapse : ℕ
  pub threadid : ℕ
  pub fiberid : ℕ
  pub time : ℕ
  pub mtime : ℕ
  pub content : Text
  pub logger_name : Text
  pub level : ℕ
  pub thread_name : Text

-- The subclasses of `FormatItem`.
pub data FormatItem : Type 0 where
  string_item date_time_item datem_time_item : Text → FormatItem
  message_item level_item elapse_item name_item thread_id_item fiber_id_item : FormatItem
  file_name_item line_item new_line_item tab_item thread_name_item : FormatItem

abbrev pub default_date : Text
default_date = codes "%Y-%m-%d %H:%M:%S"

-- The format that the constructors of the two items for dates keep.
abbrev pub date_format : Text → Text
date_format [] = default_date
date_format (c ∷ fmt) = c ∷ fmt

-- `s_format_items`.
abbrev pub format_items : List (Text × (Text → FormatItem))
format_items =
    (codes "m", λ fmt. message_item)
    ∷ (codes "p", λ fmt. level_item)
    ∷ (codes "r", λ fmt. elapse_item)
    ∷ (codes "c", λ fmt. name_item)
    ∷ (codes "t", λ fmt. thread_id_item)
    ∷ (codes "n", λ fmt. new_line_item)
    ∷ (codes "d", λ fmt. date_time_item (date_format fmt))
    ∷ (codes "f", λ fmt. file_name_item)
    ∷ (codes "l", λ fmt. line_item)
    ∷ (codes "T", λ fmt. tab_item)
    ∷ (codes "F", λ fmt. fiber_id_item)
    ∷ (codes "D", λ fmt. datem_time_item (date_format fmt))
    ∷ (codes "N", λ fmt. thread_name_item)
    ∷ []

unfoldable pub item_named : Text → Text → List (Text × (Text → FormatItem)) → Option FormatItem
item_named name fmt [] = none
item_named name fmt ((key, make) ∷ items) =
    let rest = item_named name fmt items in if same_text key name then some (make fmt) else rest

-- The item of one entry, and whether it is in error.
unfoldable pub item_of : Segment → FormatItem × Bool
item_of (text s) = (string_item s, false)
item_of (directive name fmt) = elim (item_named name fmt format_items) [
  | none ↦ (string_item (codes "<<error_format %" ++ name ++ codes ">>"), true)
  | some item ↦ (item, false)
]

-- The loop over `vec`.
unfoldable pub items_of : List Segment → List FormatItem × Bool
items_of [] = ([], false)
items_of (s ∷ segments) =
    let (items, error) = items_of segments in ((item_of s).0 ∷ items, (item_of s).1 || error)

pub record LogFormatter : Type 0 where
  pub pattern : Text
  pub items : List FormatItem
  pub error : Bool

-- The constructor, with `init`.
unfoldable pub new_log_formatter : Text → LogFormatter
unfolding items_of split_pattern
new_log_formatter pattern =
    let (segments, unparsed) = split_pattern pattern in
    let (items, unnamed) = items_of segments in
    record { pattern = pattern; items = items; error = unparsed || unnamed }

-- The milliseconds of a time.
abbrev pub milliseconds : ℕ → Text
milliseconds mtime =
    if ltb mtime 100 && leb 10 mtime
    then codes ":0" ++ decimal mtime
    else if ltb mtime 10
    then codes ":00" ++ decimal mtime
    else codes ":" ++ decimal mtime

module _ (strftime : Text → ℕ → Text) where
  -- `format` of each item.
  unfoldable pub format_item : FormatItem → ℕ → LogEvent → Text
  format_item (string_item s) level event = s
  format_item (date_time_item fmt) level event = strftime fmt event.time
  format_item (datem_time_item fmt) level event =
      strftime fmt event.time ++ milliseconds event.mtime
  format_item message_item level event = event.content
  format_item level_item level event = level_to_string level
  format_item elapse_item level event = decimal event.elapse
  format_item name_item level event = event.logger_name
  format_item thread_id_item level event = decimal event.threadid
  format_item fiber_id_item level event = decimal event.fiberid
  format_item file_name_item level event = event.file
  format_item line_item level event = decimal event.line
  format_item new_line_item level event = codes "\n"
  format_item tab_item level event = codes "\t"
  format_item thread_name_item level event = event.thread_name

  unfoldable pub format_all : List FormatItem → ℕ → LogEvent → Text
  format_all [] level event = []
  format_all (item ∷ items) level event =
      format_item item level event ++ format_all items level event

  -- `LogFormatter::format`.
  unfoldable pub format : LogFormatter → ℕ → LogEvent → Text
  unfolding format_all
  format formatter level event = format_all formatter.items level event
