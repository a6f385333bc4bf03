-- ===== src/Process/Main.antt =====
-- main.cpp: parseConfigPath, and main up to its wait. The handler of the signals is a step of
-- its own.
use yolo_server.Prelude.{
  ℕ, zero, suc, ℤ, pos, negsuc, Bool, true, false, not, Option, none, some, Text, List, [], ◌∷◌,
  codes, text_eq, if◌then◌else◌,
}
use yolo_server.Prelude.Exec.{Exec, Outcome, returns, throws, fault}
use yolo_server.Host.{Host}
use yolo_server.Config.Store.{load_from_file}
use yolo_server.Process.Listener.{Listener}
use yolo_server.Process.Lifecycle.{Server, at_world, new_server, stop_server}
use yolo_server.Process.Accepting.{start_server}

-- The loop of parseConfigPath, from an argument on.
unfoldable pub config_in : List Text → Text
config_in [] = codes "./config/server.conf"
config_in (arg ∷ []) = codes "./config/server.conf"
config_in (arg ∷ next ∷ rest) =
    let later = config_in (next ∷ rest) in if text_eq arg (codes "--config") then next else later

-- parseConfigPath; the first argument is the program.
unfoldable pub parse_config_path : List Text → Text
parse_config_path [] = codes "./config/server.conf"
parse_config_path (program ∷ args) = config_in args

module _ {H : Host} where
  -- handleSignal, on g_server; it may run between any two steps of the process.
  unfoldable pub handle_signal : Option (Server H) → Option (Server H)
  handle_signal none = none
  handle_signal (some s) = some (stop_server s)

  -- wait: true once the server has stopped.
  unfoldable pub wait : ℕ → Server H → Bool × Server H
  wait zero s = (false, s)
  wait (suc seconds) s =
      let rest = wait seconds (at_world s (H.sleep_ms 1000 s.world)) in
      if s.running then rest else (true, s)

  abbrev pub started : Outcome (Option Bool) × Server H → Outcome (Option ℤ)
  started (returns none, s) = returns none
  started (returns (some true), s) = returns none
  started (returns (some false), s) = returns (some (negsuc 0))
  started (throws, s) = throws
  started (fault, s) = fault

  abbrev pub constructed : Exec (Server H) (Option Bool) → Option (Server H) → Outcome (Option ℤ)
  constructed run none = fault
  constructed run (some s) = started (run s)

  -- main, with the contents of the files: the exit code, or none if start is in its loop, or has
  -- returned true and main waits.
  unfoldable pub main :
      Listener H → ℕ → ℕ → (Text → Option Text) → List Text → H.World → Outcome (Option ℤ)
  main L clients rounds contents argv w =
      let (ok, config) = load_from_file (contents (parse_config_path argv)) [] in
      let run = constructed (start_server L clients rounds) (new_server config w) in
      if not ok then returns (some (pos 1)) else run
