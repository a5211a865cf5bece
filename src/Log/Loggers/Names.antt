-- ===== src/Log/Loggers/Names.antt =====
-- The names of the loggers of dwframe/log.cc.
use dwframe.Base.{
  ℕ, ◌+◌, ◌<◌, ◌≡◌, ◌≢◌, refl, sym, ap, false, Option, none, some, ◌∷◌, All, All-map, arith,
}
use dwframe.Base.Text.{Text, same_text_refl, same_text_other}
use dwframe.Log.Format.{new_log_formatter}
use dwframe.Log.Loggers.{put_at, new_logger, LoggerManager, logger_named, get_logger, insert_logger}
use dwframe.Log.Loggers.Delivery.{put_at-same, put_at-other}

-- Every logger with a name has an address that is in use.
abbrev pub InUse : LoggerManager → Type 0
InUse m = All (λ e. e.1 < m.fresh) m.loggers

-- What `getLogger` does: the logger of the name from then on is the one it answers, at an address in
-- use, made with the root if there was none; other names and the loggers in use stay as they are.
pub record Got (name : Text) (m : LoggerManager) (run : ℕ × LoggerManager) : Type 0 where
  pub in_use : InUse run.1
  pub again : get_logger name run.1 ≡ run
  pub found : (p : ℕ) → logger_named name m.loggers ≡ some p → run ≡ (p, m)
  pub made :
      logger_named name m.loggers ≡ none
      → run.1.store run.0 ≡ record (new_logger name) { root = some m.root }
  pub others :
      (other : Text)
      → other ≢ name
      → logger_named other run.1.loggers ≡ logger_named other m.loggers
  pub kept : (p : ℕ) → p < m.fresh → run.1.store p ≡ m.store p
  pub refused : (q : ℕ) → insert_logger name q run.1 ≡ (false, run.1)

-- On a manager whose loggers stand at addresses in use, `getLogger` answers the logger of the
-- name, or else makes one that has the root; asking again answers the same and changes nothing,
-- `insertLogger` of that name is refused, and other names and the loggers in use stay as they are.
pub get_logger-Got : (name : Text) (m : LoggerManager) → InUse m → Got name m (get_logger name m)
unfolding get_logger new_logger logger_named insert_logger new_log_formatter
get_logger-Got name m u = go (logger_named name m.loggers) refl
  where
    go : (o : Option ℕ) → logger_named name m.loggers ≡ o → Got name m (get_logger name m)
    go (some p) e =
        let run : get_logger name m ≡ (p, m) = rw (e, get_logger) in
        rw run (record {
          in_use = u;
          again = run;
          found = λ q g. let same : p ≡ q = cc in ap (λ x. (x, m)) same;
          made = λ g. absurd (cc);
          others = λ other d. refl;
          kept = λ q h. refl;
          refused = λ q. rw (e, insert_logger);
        })
    go none e =
        let made = record (new_logger name) { root = some m.root } in
        let next : LoggerManager = record m {
          loggers = (name, m.fresh) ∷ m.loggers;
          fresh = m.fresh + 1;
          store = put_at m.fresh made m.store;
        } in
        let run : get_logger name m ≡ (m.fresh, next) = rw (e, get_logger) in
        let here : logger_named name next.loggers ≡ some m.fresh =
          rw (logger_named, same_text_refl name) in
        rw run (record {
          in_use = (omega arith, All-map _ _ m.loggers (λ x h. omega arith) u);
          again = rw (get_logger, here);
          found = λ q g. absurd (cc);
          made = λ g. put_at-same m.fresh made m.store;
          others = λ other d. rw (logger_named, same_text_other name other (λ g. d (sym g)));
          kept = λ q h. put_at-other m.fresh q made m.store (λ g. absurd (omega (arith, g, h)));
          refused = λ q. rw (insert_logger, here);
        })
