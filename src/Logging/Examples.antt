-- ===== src/Logging/Examples.antt =====
-- common/logger/Logger.cpp over a spdlog that keeps what it is given.
use yolo_server.Prelude.{ℕ, ◌≡◌, refl, some, Text, List, [], ◌++◌, codes}
use yolo_server.Prelude.Exec.{returns}
use yolo_server.Logging.Spdlog.{Spdlog, IsLogging, SpdLogger, info, shown}
use yolo_server.Logging.Logger.{log_warn, init_logger}
use yolo_server.Logging.Filtering.{Installed, init_logger_lem}

-- The default logger, and what was written to a sink.
record Kept : Type 0 where
  current : SpdLogger
  pages : ℕ → List Text

abbrev spdlog : Spdlog
spdlog = record {
  World = Kept;
  make_console = λ k. (some 0, k);
  make_file = λ path size files k. (some 1, k);
  set_default_logger = λ l k. record k { current = l };
  log = λ loc level text k. record k {
    pages = λ sink. k.pages sink ++ shown k.current sink level text;
  };
  print_error = λ k. k;
}

abbrev spdlog-IsLogging : IsLogging spdlog
spdlog-IsLogging = record {
  default_logger = λ k. k.current;
  written = λ k. k.pages;
  console_keeps = λ k. refl;
  file_keeps = λ path size files k. refl;
  error_keeps = λ k. refl;
  set_default = λ l k. refl;
  log_keeps = λ loc level text k. refl;
  log_written = λ loc level text k sink. refl;
}

abbrev empty : Kept
empty = record {
  current = record { name = []; sinks = []; level = info; flush_level = info; pattern = [] };
  pages = λ sink. [];
}

init_logger_lem_example :
    let (result, w') = init_logger spdlog (codes "server.log") log_warn 1024 5 empty in
    (result ≡ returns tt) × Installed spdlog spdlog-IsLogging log_warn (some 0) (some 1) empty w'
init_logger_lem_example =
    init_logger_lem spdlog spdlog-IsLogging (codes "server.log") log_warn 1024 5 empty
