-- ===== src/Logging/Filtering.antt =====
-- Which messages of common/logger/Logger.cpp are shown.
use yolo_server.Prelude.{
  ℕ, ◌≡◌, refl, ap, ◌∙◌, Option, none, some, Text, [], ◌∷◌, ◌++◌, arith, leb, if◌then◌else◌, codes,
  ◌⊎◌, inl, inr, Option-cases,
}
use yolo_server.Prelude.Exec.{returns}
use yolo_server.Logging.Spdlog.{Spdlog, IsLogging, info, shown}
use yolo_server.Logging.Logger.{
  LogLevel, log_debug, log_info, log_warn, log_error, message_level, default_of, install,
  init_logger, log,
}

-- The values of the enumerators of LogLevel, which grow with the gravity of a message.
abbrev pub severity : LogLevel → ℕ
severity log_debug = 0
severity log_info = 1
severity log_warn = 2
severity log_error = 3

-- Both sinks admit every level, so the level of the logger decides.
shown-default :
    (level m : LogLevel) (console file sink : ℕ) (text : Text)
    → (sink ≡ console) ⊎ (sink ≡ file)
    → shown (default_of level console file) sink (message_level m) text
      ≡ (if leb (severity level) (severity m) then text ∷ [] else [])
shown-default log_debug log_debug console file sink text one = ground arith
shown-default log_debug log_info console file sink text one = ground arith
shown-default log_debug log_warn console file sink text one = ground arith
shown-default log_debug log_error console file sink text one = ground arith
shown-default log_info log_debug console file sink text one = ground arith
shown-default log_info log_info console file sink text one = ground arith
shown-default log_info log_warn console file sink text one = ground arith
shown-default log_info log_error console file sink text one = ground arith
shown-default log_warn log_debug console file sink text one = ground arith
shown-default log_warn log_info console file sink text one = ground arith
shown-default log_warn log_warn console file sink text one = ground arith
shown-default log_warn log_error console file sink text one = ground arith
shown-default log_error log_debug console file sink text one = ground arith
shown-default log_error log_info console file sink text one = ground arith
shown-default log_error log_warn console file sink text one = ground arith
shown-default log_error log_error console file sink text one = ground arith

module _ (S : Spdlog) (L : IsLogging S) where
  open L use {default_logger, written}

  -- What is written once init is called: the file or the console is missing and nothing has changed,
  -- or the default logger is the new one.
  abbrev pub Installed : LogLevel → Option ℕ → Option ℕ → S.World → S.World → Type 0
  Installed level (some console) (some file) w w' =
      (default_logger w' ≡ default_of level console file)
      × ((m : LogLevel) (path func text : Text) (line sink : ℕ)
          → (sink ≡ console) ⊎ (sink ≡ file)
          → written (log S m path line func text w') sink
            ≡ written w' sink ++ (if leb (severity level) (severity m) then text ∷ [] else []))
  Installed level _ _ w w' = default_logger w' ≡ default_logger w

  -- Init returns whatever spdlog does. If a sink cannot be made, the default logger stays as it
  -- was; otherwise it is the new one, and afterwards a message is written to the console and to the
  -- file exactly if its LogLevel is not below that of init, in the order DEBUG, INFO, WARN, ERROR.
  pub init_logger_lem :
      (log_file : Text) (level : LogLevel) (size files : ℕ) (w : S.World)
      → let (result, w') = init_logger S log_file level size files w in
        let console = S.make_console w in
        let file = S.make_file log_file size files console.1 in
        (result ≡ returns tt) × Installed level console.0 file.0 w w'
  unfolding init_logger install log
  init_logger_lem log_file level size files w =
      let (console, w1) = S.make_console w in
      let (file, w2) = S.make_file log_file size files w1 in
      elim (Option-cases console) [
        | inl no_console ↦ rw no_console (refl, L.error_keeps w1 ∙ L.console_keeps w)
        | inr (c, made) ↦ elim (Option-cases file) [
          | inl no_file ↦
              rw (made, no_file)
                (refl, L.error_keeps w2 ∙ L.file_keeps log_file size files w1 ∙ L.console_keeps w)
          | inr (f, made') ↦
              let w3 = S.set_default_logger (default_of level c f) w2 in
              let w4 = S.log none info (codes "Logger initialized, file=" ++ log_file) w3 in
              let now_default : default_logger w4 ≡ default_of level c f =
                L.log_keeps none info (codes "Logger initialized, file=" ++ log_file) w3
                ∙ L.set_default (default_of level c f) w2 in
              rw (made, made')
                (
                  refl,
                  (
                    now_default,
                    λ m path func text line sink one.
                        L.log_written (some (record { file = path; line = line; func = func }))
                          (message_level m) text w4 sink
                        ∙ ap (λ l. written w4 sink ++ shown l sink (message_level m) text)
                            now_default
                        ∙ ap (λ xs. written w4 sink ++ xs)
                            (shown-default level m c f sink text one),
                  ),
                )
        ]
      ]
