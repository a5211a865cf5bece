-- ===== src/Log/Level.antt =====
-- `LogLevel` of dwframe/log.h and dwframe/log.cc. A level is a number, as the configuration sets one
-- that has no name.
use dwframe.Base.{ℕ, List, [], ◌∷◌, if◌then◌else◌, ◌==◌}
use dwframe.Base.Text.{Text, codes, same_text}

abbrev pub debug : ℕ
debug = 1

-- `LogLevel::ToString`.
abbrev pub level_to_string : ℕ → Text
level_to_string level =
    if level == 1
    then codes "DEBUG"
    else if level == 2
    then codes "INFO"
    else if level == 3
    then codes "WARN"
    else if level == 4
    then codes "ERROR"
    else if level == 5
    then codes "FATAL"
    else codes "UNKNOW"

-- The names of `LogLevel::FromString`, in its order.
abbrev pub level_names : List (Text × ℕ)
level_names =
    (codes "debug", 1)
    ∷ (codes "info", 2)
    ∷ (codes "warn", 3)
    ∷ (codes "error", 4)
    ∷ (codes "fatal", 5)
    ∷ (codes "DEBUG", 1)
    ∷ (codes "INFO", 2)
    ∷ (codes "WARN", 3)
    ∷ (codes "ERROR", 4)
    ∷ (codes "FATAL", 5)
    ∷ []

abbrev pub level_named : Text → List (Text × ℕ) → ℕ
level_named str [] = 0
level_named str ((name, level) ∷ names) =
    let rest = level_named str names in if same_text str name then level else rest

-- `LogLevel::FromString`.
abbrev pub level_from_string : Text → ℕ
level_from_string str = level_named str level_names
