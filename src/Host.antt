-- ===== src/Host.antt =====
-- The machine under a server: the calls of the operating system and of RocksDB over one world.
use yolo_server.Prelude.{ℕ, ℤ, ◌≤◌, Bool, Option, Text}
use yolo_server.Server.Socket.{Socket}
use yolo_server.Cluster.Health.{Dialer}
use yolo_server.Pool.Net.{Net, Peek}
use yolo_server.Storage.Database.{Database, GetStatus}

pub record Host : Type 1 where
  pub World : Type 0
  pub now : World → ℕ × World
  pub draw_timeout : World → ℕ × World
  pub timeout_range : (w : World) → (150 ≤ (draw_timeout w).0) × ((draw_timeout w).0 ≤ 300)
  pub sleep_ms : ℕ → World → World
  pub open_socket : World → Option ℕ × World
  pub set_nonblocking : ℕ → World → World
  pub set_timeouts : World → ℕ → World
  pub is_address : Text → Bool
  pub connect : ℕ → Text → ℤ → World → Bool × World
  pub recv : World → ℕ → ℕ → Option Text × World
  pub recv_some : World → ℕ → ℕ → Option Text × World
  pub send : World → ℕ → Text → Option ℕ × World
  pub peek : ℕ → World → Peek × World
  pub close : ℕ → World → World
  pub create_directories : Text → World → World
  pub open_db : Text → World → Bool × World
  pub put : Text → Text → World → Bool × World
  pub get : Text → World → GetStatus × World

-- The parts of the machine that the components name.
module _ (H : Host) where
  abbrev pub host_socket : Socket
  host_socket = record { World = H.World; recv = H.recv; send = H.send }

  abbrev pub host_net : Net
  host_net = record {
    World = H.World;
    now = H.now;
    sleep_ms = H.sleep_ms;
    open_socket = H.open_socket;
    set_nonblocking = H.set_nonblocking;
    is_address = H.is_address;
    connect = H.connect;
    peek = H.peek;
    close = H.close;
  }

  abbrev pub host_database : Database
  host_database = record {
    World = H.World;
    create_directories = H.create_directories;
    open_db = H.open_db;
    put = H.put;
    get = H.get;
  }

  abbrev pub host_dialer : Dialer
  host_dialer = record {
    socket = host_socket;
    open_socket = H.open_socket;
    is_address = H.is_address;
    set_timeouts = H.set_timeouts;
    connect = λ w fd host port. H.connect fd host port w;
    recv_some = H.recv_some;
    close = λ w fd. H.close fd w;
  }
