-- ===== src/Pool/Net.antt =====
-- The calls of the operating system that raft/RaftConnectionPool.cpp makes, and what is documented of
-- descriptors.
use yolo_server.Prelude.{ℕ, ℤ, ◌≡◌, ◌≢◌, Bool, Option, some, Text}

-- The results of recv with MSG_PEEK | MSG_DONTWAIT: 0, -1 with EAGAIN or EWOULDBLOCK, -1 with another
-- error, and a positive number.
pub data Peek : Type 0 where
  closed would_block failed readable : Peek

pub record Net : Type 1 where
  pub World : Type 0
  pub now : World → ℕ × World
  pub sleep_ms : ℕ → World → World
  pub open_socket : World → Option ℕ × World
  pub set_nonblocking : ℕ → World → World
  pub is_address : Text → Bool
  pub connect : ℕ → Text → ℤ → World → Bool × World
  pub peek : ℕ → World → Peek × World
  pub close : ℕ → World → World

-- Which descriptors are open: socket returns one that was not, close ends the one it is given, and
-- no other call changes it.
pub record Descriptors (N : Net) : Type 1 where
  pub IsOpen : N.World → ℕ → Type 0
  pub now_keeps : (w : N.World) (fd : ℕ) → IsOpen w fd → IsOpen (N.now w).1 fd
  pub sleep_keeps : (ms : ℕ) (w : N.World) (fd : ℕ) → IsOpen w fd → IsOpen (N.sleep_ms ms w) fd
  pub open_keeps : (w : N.World) (fd : ℕ) → IsOpen w fd → IsOpen (N.open_socket w).1 fd
  pub open_new : (w : N.World) (fd : ℕ) → (N.open_socket w).0 ≡ some fd → IsOpen w fd → ⊥
  pub open_opens :
      (w : N.World) (fd : ℕ) → (N.open_socket w).0 ≡ some fd → IsOpen (N.open_socket w).1 fd
  pub nonblocking_keeps :
      (f : ℕ) (w : N.World) (fd : ℕ) → IsOpen w fd → IsOpen (N.set_nonblocking f w) fd
  pub connect_keeps :
      (f : ℕ) (host : Text) (port : ℤ) (w : N.World) (fd : ℕ)
      → IsOpen w fd
      → IsOpen (N.connect f host port w).1 fd
  pub peek_keeps : (f : ℕ) (w : N.World) (fd : ℕ) → IsOpen w fd → IsOpen (N.peek f w).1 fd
  pub close_keeps : (f : ℕ) (w : N.World) (fd : ℕ) → fd ≢ f → IsOpen w fd → IsOpen (N.close f w) fd
