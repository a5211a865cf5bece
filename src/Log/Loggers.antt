-- ===== src/Log/Loggers.antt =====
-- `LogAppender`, `Logger` and `LoggerManager` of dwframe/log.h and dwframe/log.cc. Appenders are
-- shared, so they stand in a store by their address, as do loggers by theirs. What an appender has
-- written is a list of texts. Each operation runs under its lock. A null pointer that is gone through
-- is no result.
pub mod Delivery
pub mod Formatters
pub mod Names
use dwframe.Base.{
  ℕ, ◌+◌, Bool, true, false, Option, none, some, List, [], ◌∷◌, ◌++◌, if◌then◌else◌, ◌==◌, leb,
}
use dwframe.Base.Text.{Text, codes, same_text}
use dwframe.Log.Level.{debug}
use dwframe.Log.Format.{LogEvent, LogFormatter, new_log_formatter, format}

pub record LogAppender : Type 0 where
  pub level : ℕ
  pub formatter : Option LogFormatter
  pub has_formatter : Bool
  pub written : List Text

-- A store with another value at one address.
abbrev pub put_at {ℓ} : {A : Type ℓ} → ℕ → A → (ℕ → A) → ℕ → A
put_at i a store j = if j == i then a else store j

abbrev pub new_log_appender : LogAppender
new_log_appender = record { level = debug; formatter = none; has_formatter = false; written = [] }

-- `LogAppender::setFormatter`, for a formatter of its own, or none.
unfoldable pub set_own_formatter : Option LogFormatter → LogAppender → LogAppender
set_own_formatter none a = record a { formatter = none; has_formatter = false }
set_own_formatter (some f) a = record a { formatter = some f; has_formatter = true }

-- `LogAppender::SetFormatter`, for that of its logger.
unfoldable pub set_shared_formatter : LogFormatter → LogAppender → LogAppender
set_shared_formatter f a = record a { formatter = some f }

pub record Logger : Type 0 where
  pub name : Text
  pub level : ℕ
  pub appenders : List ℕ
  pub formatter : LogFormatter
  pub root : Option ℕ

abbrev pub default_pattern : Text
default_pattern = codes "[%D{%Y-%m-%d %H:%M:%S}] [T:%N] [%t] [F:%F] [%c]%T[%p]%T[%f: %l]  %T%m %n"

unfoldable pub new_logger : Text → Logger
new_logger name = record {
  name = name;
  level = debug;
  appenders = [];
  formatter = new_log_formatter default_pattern;
  root = none;
}

abbrev pub Appenders : Type 0
Appenders = ℕ → LogAppender

-- The formatter of an appender, or that of the logger it is added to.
abbrev pub adopt : LogFormatter → Option LogFormatter → LogAppender → LogAppender
adopt f none a = set_shared_formatter f a
adopt f (some own) a = a

-- `addAppender`.
unfoldable pub add_appender : ℕ → Logger → Appenders → Logger × Appenders
unfolding set_shared_formatter
add_appender p l store = (
  record l { appenders = l.appenders ++ (p ∷ []) },
  put_at p (adopt l.formatter (store p).formatter (store p)) store,
)

-- The first occurrence of an address is taken out.
unfoldable pub erase_address : ℕ → List ℕ → List ℕ
erase_address p [] = []
erase_address p (q ∷ qs) = let rest = erase_address p qs in if q == p then qs else q ∷ rest

unfoldable pub del_appender : ℕ → Logger → Logger
unfolding erase_address
del_appender p l = record l { appenders = erase_address p l.appenders }

unfoldable pub clear_appends : Logger → Logger
clear_appends l = record l { appenders = [] }

-- The loop of `setFormatter` over the appenders.
unfoldable pub share_formatter : LogFormatter → List ℕ → Appenders → Appenders
share_formatter f [] store = store
share_formatter f (p ∷ ps) store =
    share_formatter f ps (
      put_at p (if (store p).has_formatter then store p else set_shared_formatter f (store p))
        store)

-- `setFormatter` of a formatter.
unfoldable pub set_formatter : LogFormatter → Logger → Appenders → Logger × Appenders
set_formatter f l store = (record l { formatter = f }, share_formatter f l.appenders store)

-- `setFormatter` of a pattern, which is refused if it is in error.
unfoldable pub set_pattern : Text → Logger → Appenders → Logger × Appenders
set_pattern pattern l store =
    let f = new_log_formatter pattern in if f.error then (l, store) else set_formatter f l store

module _ (strftime : Text → ℕ → Text) where
  -- `log` of an appender.
  unfoldable pub append_log : ℕ → LogEvent → LogAppender → Option LogAppender
  append_log level event a =
      if leb a.level level
      then elim a.formatter [
        | none ↦ none
        | some f ↦ some (record a { written = a.written ++ (format strftime f level event ∷ []) })
      ]
      else some a

  -- The loop of `Logger::log` over the appenders.
  unfoldable pub log_loop : ℕ → LogEvent → List ℕ → Appenders → Option Appenders
  log_loop level event [] store = some store
  log_loop level event (p ∷ ps) store = elim (append_log level event (store p)) [
    | none ↦ none
    | some a ↦ log_loop level event ps (put_at p a store)
  ]

  -- `Logger::log`, with the store of loggers for `m_root`, whose own root is null.
  unfoldable pub log : ℕ → LogEvent → Logger → (ℕ → Logger) → Appenders → Option Appenders
  log level event l loggers store =
      if leb l.level level
      then elim l.appenders [
        | p ∷ ps ↦ log_loop level event (p ∷ ps) store
        | [] ↦ elim l.root [
          | none ↦ some store
          | some r ↦
              if leb (loggers r).level level
              then log_loop level event (loggers r).appenders store
              else some store
        ]
      ]
      else some store

-- `LoggerManager`: the addresses of loggers by their names, the root, and the address of the next
-- logger that is made.
pub record LoggerManager : Type 0 where
  pub loggers : List (Text × ℕ)
  pub root : ℕ
  pub fresh : ℕ
  pub store : ℕ → Logger

unfoldable pub logger_named : Text → List (Text × ℕ) → Option ℕ
logger_named name [] = none
logger_named name ((key, p) ∷ loggers) =
    let rest = logger_named name loggers in if same_text key name then some p else rest

-- `getLogger`: the address of the logger, and the manager after it.
unfoldable pub get_logger : Text → LoggerManager → ℕ × LoggerManager
get_logger name m = elim (logger_named name m.loggers) [
  | some p ↦ (p, m)
  | none ↦ (
    m.fresh,
    record m {
      loggers = (name, m.fresh) ∷ m.loggers;
      fresh = m.fresh + 1;
      store = put_at m.fresh (record (new_logger name) { root = some m.root }) m.store;
    },
  )
]

-- `insertLogger` of a logger.
unfoldable pub insert_logger : Text → ℕ → LoggerManager → Bool × LoggerManager
insert_logger name p m = elim (logger_named name m.loggers) [
  | some q ↦ (false, m)
  | none ↦ (true, record m { loggers = (name, p) ∷ m.loggers })
]
