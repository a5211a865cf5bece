-- ===== src/Tests/Logs.antt =====
-- Patterns, appenders and loggers for dwframe/log.cc.
use dwframe.Base.{ℕ, ◌≡◌, refl, false, some, none, List, [], ◌∷◌, arith}
use dwframe.Base.Text.{Text, codes}
use dwframe.Log.Pattern.{split_pattern, split_loop}
use dwframe.Log.Pattern.Printing.{Piece, plain, bare, braced, print, segments, split_pattern-print}
use dwframe.Log.Pattern.Fuel.{split_loop-enough}
use dwframe.Log.Format.{LogEvent, LogFormatter}
use dwframe.Log.Loggers.{
  LogAppender, new_log_appender, Appenders, Logger, LoggerManager, default_pattern, get_logger,
}
use dwframe.Log.Loggers.Delivery.{Logged, log-Logged}
use dwframe.Log.Loggers.Formatters.{FormatterLaws, formatter-FormatterLaws}
use dwframe.Log.Loggers.Names.{Got, get_logger-Got}

-- The pattern that a logger starts with, in pieces.
abbrev default_pieces : List Piece
default_pieces =
    plain (codes "[")
    ∷ braced (codes "D") (codes "%Y-%m-%d %H:%M:%S")
    ∷ plain (codes "] [T:")
    ∷ bare (codes "N")
    ∷ plain (codes "] [")
    ∷ bare (codes "t")
    ∷ plain (codes "] [F:")
    ∷ bare (codes "F")
    ∷ plain (codes "] [")
    ∷ bare (codes "c")
    ∷ plain (codes "]")
    ∷ bare (codes "T")
    ∷ plain (codes "[")
    ∷ bare (codes "p")
    ∷ plain (codes "]")
    ∷ bare (codes "T")
    ∷ plain (codes "[")
    ∷ bare (codes "f")
    ∷ plain (codes ": ")
    ∷ bare (codes "l")
    ∷ plain (codes "]  ")
    ∷ bare (codes "T")
    ∷ bare (codes "m")
    ∷ plain (codes " ")
    ∷ bare (codes "n")
    ∷ []

default_pieces-print : print default_pieces ≡ default_pattern
default_pieces-print = refl

split_pattern-print_example :
    split_pattern (print default_pieces) ≡ (segments default_pieces, false)
split_pattern-print_example = split_pattern-print default_pieces refl

split_loop-enough_example : split_loop 9 [] (codes "%d{%%m") ≡ split_loop 7 [] (codes "%d{%%m")
split_loop-enough_example = split_loop-enough 9 7 [] (codes "%d{%%m") (omega arith) (omega arith)

abbrev started : LogEvent
started = record {
  file = codes "main.cc";
  line = 12;
  elapse = 5;
  threadid = 7;
  fiberid = 0;
  time = 0;
  mtime = 9;
  content = codes "started";
  logger_name = codes "root";
  level = 2;
  thread_name = codes "main";
}

abbrev strftime : Text → ℕ → Text
strftime fmt time = codes "12:00"

abbrev short : LogFormatter
short = record { pattern = []; items = []; error = false }

abbrev ready : LogAppender
ready = record new_log_appender { formatter = some short }

abbrev appenders : Appenders
appenders p = ready

abbrev system : Logger
system = record {
  name = codes "system";
  level = 1;
  appenders = 1 ∷ 2 ∷ [];
  formatter = short;
  root = some 0;
}

abbrev loggers : ℕ → Logger
loggers p = record system { appenders = []; root = none }

log-Logged_example : Logged strftime 2 started system loggers appenders
log-Logged_example =
    log-Logged strftime 2 started system loggers appenders
      (((λ e. absurd (omega (arith, e))), tt), (tt, tt)) ((short, refl), ((short, refl), tt))
      (λ r. (tt, tt))

formatter-FormatterLaws_example : FormatterLaws 3 short system appenders
formatter-FormatterLaws_example =
    formatter-FormatterLaws 3 short system appenders ((short, refl), ((short, refl), tt))

abbrev manager : LoggerManager
manager = record { loggers = (codes "root", 0) ∷ []; root = 0; fresh = 1; store = loggers }

get_logger-Got_example : Got (codes "system") manager (get_logger (codes "system") manager)
get_logger-Got_example = get_logger-Got (codes "system") manager (omega arith, tt)
