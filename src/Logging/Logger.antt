-- ===== src/Logging/Logger.antt =====
-- common/logger/Logger.h and Logger.cpp. The object has no members of its own; the formatting of a
-- message is left to the caller.
use yolo_server.Prelude.{ℕ, Option, none, some, Text, [], ◌∷◌, ◌++◌, codes}
use yolo_server.Prelude.Exec.{Exec, Outcome, returns, throws, lift, catch, ◌>>=◌, ◌>>◌}
use yolo_server.Logging.Spdlog.{Spdlog, SpdLevel, debug, info, warn, err, SpdLogger}

pub data LogLevel : Type 0 where
  log_debug log_info log_warn log_error : LogLevel

-- The switch of init.
abbrev pub init_level : LogLevel → SpdLevel
init_level log_debug = debug
init_level log_info = info
init_level log_warn = warn
init_level log_error = err

-- The switch of log.
abbrev pub message_level : LogLevel → SpdLevel
message_level log_debug = debug
message_level log_info = info
message_level log_warn = warn
message_level log_error = err

abbrev pub line_pattern : Text
line_pattern = codes "[%Y-%m-%d %H:%M:%S.%e] [%^%l%$] [%s:%# %!] %v"

-- The logger that init makes of the two sinks.
abbrev pub default_of : LogLevel → ℕ → ℕ → SpdLogger
default_of level console file = record {
  name = codes "default";
  sinks = (console, debug) ∷ (file, debug) ∷ [];
  level = init_level level;
  flush_level = init_level level;
  pattern = line_pattern;
}

module _ (S : Spdlog) where
  open S use {World}

  -- make_shared of a sink, which may throw.
  abbrev pub new_sink : Option ℕ × World → Outcome ℕ × World
  new_sink (none, w) = (throws, w)
  new_sink (some s, w) = (returns s, w)

  unfoldable pub install : Text → LogLevel → ℕ → ℕ → Exec World Unit
  install log_file level max_file_size max_files = do
    console ← λ w. new_sink (S.make_console w)
    file ← λ w. new_sink (S.make_file log_file max_file_size max_files w)
    lift (λ w. (tt, S.set_default_logger (default_of level console file) w))
    lift (λ w. (tt, S.log none info (codes "Logger initialized, file=" ++ log_file) w))

  -- init
  unfoldable pub init_logger : Text → LogLevel → ℕ → ℕ → Exec World Unit
  unfolding install
  init_logger log_file level max_file_size max_files =
      catch (install log_file level max_file_size max_files) (lift (λ w. (tt, S.print_error w)))

  -- log, with the message formatted.
  unfoldable pub log : LogLevel → Text → ℕ → Text → Text → World → World
  log level file line func text w =
      S.log (some (record { file = file; line = line; func = func })) (message_level level) text w
