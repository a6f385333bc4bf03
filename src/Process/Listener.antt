-- ===== src/Process/Listener.antt =====
-- The calls of the operating system that server/Server.cpp makes on its two own descriptors. `none`
-- stands for -1.
use yolo_server.Prelude.{ℕ, ℤ, Bool, Option, List}
use yolo_server.Host.{Host}

-- The results of epoll_wait: 0, -1 with EINTR, -1 with another error, and the descriptors of the
-- events.
pub data Wait : Type 0 where
  timed_out interrupted wait_failed : Wait
  ready : List ℕ → Wait

pub record Listener (H : Host) : Type 0 where
  pub reuse_address : ℕ → H.World → H.World
  pub bind : ℕ → ℤ → H.World → Bool × H.World
  pub listen : ℕ → H.World → Bool × H.World
  pub epoll_create : H.World → Option ℕ × H.World
  pub epoll_add : ℕ → ℕ → H.World → Bool × H.World
  pub epoll_wait : Option ℕ → H.World → Wait × H.World
  pub accept : Option ℕ → H.World → Option ℕ × H.World
