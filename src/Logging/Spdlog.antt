-- ===== src/Logging/Spdlog.antt =====
-- The calls of spdlog that common/logger/Logger.cpp makes, and what is documented of them.
use yolo_server.Prelude.{
  ℕ, ◌≡◌, Bool, false, ◌&&◌, ◌||◌, Option, Text, List, [], ◌∷◌, ◌++◌, ◌==◌, leb, if◌then◌else◌,
}

-- The members of spdlog::level that the code names, in their order.
pub data SpdLevel : Type 0 where
  debug info warn err : SpdLevel

abbrev pub rank : SpdLevel → ℕ
rank debug = 1
rank info = 2
rank warn = 3
rank err = 4

-- A logger with its sinks, each with the least level that it shows. A sink is its number.
pub record SpdLogger : Type 0 where
  pub name : Text
  pub sinks : List (ℕ × SpdLevel)
  pub level : SpdLevel
  pub flush_level : SpdLevel
  pub pattern : Text

pub record SourceLoc : Type 0 where
  pub file : Text
  pub line : ℕ
  pub func : Text

-- `none` from the making of a sink is the exception spdlog_ex.
pub record Spdlog : Type 1 where
  pub World : Type 0
  pub make_console : World → Option ℕ × World
  pub make_file : Text → ℕ → ℕ → World → Option ℕ × World
  pub set_default_logger : SpdLogger → World → World
  pub log : Option SourceLoc → SpdLevel → Text → World → World
  pub print_error : World → World

abbrev pub admits : List (ℕ × SpdLevel) → ℕ → SpdLevel → Bool
admits [] sink level = false
admits ((s, least) ∷ sinks) sink level =
    (s == sink && leb (rank least) (rank level)) || admits sinks sink level

-- A message goes to each sink that admits its level, if the logger does.
abbrev pub shown : SpdLogger → ℕ → SpdLevel → Text → List Text
shown logger sink level text =
    if leb (rank logger.level) (rank level) && admits logger.sinks sink level then text ∷ [] else []

pub record IsLogging (S : Spdlog) : Type 0 where
  pub default_logger : S.World → SpdLogger
  pub written : S.World → ℕ → List Text
  pub console_keeps : (w : S.World) → default_logger (S.make_console w).1 ≡ default_logger w
  pub file_keeps :
      (path : Text) (size files : ℕ) (w : S.World)
      → default_logger (S.make_file path size files w).1 ≡ default_logger w
  pub error_keeps : (w : S.World) → default_logger (S.print_error w) ≡ default_logger w
  pub set_default : (l : SpdLogger) (w : S.World) → default_logger (S.set_default_logger l w) ≡ l
  pub log_keeps :
      (loc : Option SourceLoc) (level : SpdLevel) (text : Text) (w : S.World)
      → default_logger (S.log loc level text w) ≡ default_logger w
  pub log_written :
      (loc : Option SourceLoc) (level : SpdLevel) (text : Text) (w : S.World) (sink : ℕ)
      → written (S.log loc level text w) sink
        ≡ written w sink ++ shown (default_logger w) sink level text
