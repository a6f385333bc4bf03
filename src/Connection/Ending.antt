-- ===== src/Connection/Ending.antt =====
-- The descriptors of a task of server/Server.cpp that serves one client: server/Connection.cpp from the
-- constructor to the destructor.
use yolo_server.Prelude.{ℕ, ◌≡◌, refl, sym, ◌∙◌, subst, Bool, true, false, Text, [], ◌==◌}
use yolo_server.Prelude.Exec.{Outcome, returns, throws, fault}
use yolo_server.Json.Interface.{Json}
use yolo_server.Host.{Host}
use yolo_server.Connection.State.{Connection, set_world}
use yolo_server.Connection.Loop.{handle, destroy, serve}
use yolo_server.Connection.Closing.{OpenFiles, SameFiles, forward_to_node-SameFiles}
use yolo_server.Connection.Lasting.{KeptByCalls, Lasts}
use yolo_server.Connection.Lifetime.{handle-Keeps}

-- The calls that a server makes on its database and its clock open and close no descriptor of the
-- server.
pub record HasQuietCalls (H : Host) (O : OpenFiles H) : Type 0 where
  pub put_same : (w : H.World) (k v : Text) (fd : ℕ) → O.is_open (H.put k v w).1 fd ≡ O.is_open w fd
  pub get_same : (w : H.World) (k : Text) (fd : ℕ) → O.is_open (H.get k w).1 fd ≡ O.is_open w fd
  pub now_same : (w : H.World) (fd : ℕ) → O.is_open (H.now w).1 fd ≡ O.is_open w fd
  pub draw_same : (w : H.World) (fd : ℕ) → O.is_open (H.draw_timeout w).1 fd ≡ O.is_open w fd

module _ {H : Host} (O : OpenFiles H) (S : HasQuietCalls H O) where
  open O use {is_open}

  SameFiles-KeptByCalls : (w : H.World) → KeptByCalls H (SameFiles O w)
  SameFiles-KeptByCalls w = record {
    sends = λ v f msg same fd. O.send_same v f msg fd ∙ same fd;
    recvs = λ v f len same fd. O.recv_same v f len fd ∙ same fd;
    puts = λ v k x same fd. S.put_same v k x fd ∙ same fd;
    gets = λ v k same fd. S.get_same v k fd ∙ same fd;
    nows = λ v same fd. S.now_same v fd ∙ same fd;
    draws = λ v same fd. S.draw_same v fd ∙ same fd;
    forwards =
        λ v client node msg same fd. forward_to_node-SameFiles O client node msg v fd ∙ same fd;
  }

  -- The client's descriptor is closed, the others are open or closed as before.
  abbrev pub Closed : Connection H → Connection H → Type 0
  Closed c c1 =
      (is_open c1.world c.fd ≡ false)
      × ((fd : ℕ) → (c.fd == fd) ≡ false → is_open c1.world fd ≡ is_open c.world fd)

  -- What is open when the task is over: nothing of the client's, and otherwise what was open before.
  -- While it is not over, all that was open still is.
  abbrev pub EndsClosed : Connection H → Outcome Bool × Connection H → Type 0
  EndsClosed c (returns true, c1) = Closed c c1
  EndsClosed c (returns false, c1) = SameFiles O c.world c1.world
  EndsClosed c (throws, c1) = Closed c c1
  EndsClosed c (fault, c1) = SameFiles O c.world c1.world

  close-Closed :
      (c c1 : Connection H)
      → SameFiles O c.world c1.world
      → c1.fd ≡ c.fd
      → Closed c (set_world c1 (H.close c1.fd c1.world))
  close-Closed c c1 same fd_kept = (
    subst (λ f. is_open (H.close c1.fd c1.world) f ≡ false) fd_kept (O.close_this c1.world c1.fd),
    λ fd other.
        O.close_other c1.world c1.fd fd (subst (λ f. (f == fd) ≡ false) (sym fd_kept) other)
        ∙ same fd,
  )

  destroy-EndsClosed :
      (c : Connection H) (r : Outcome Bool × Connection H)
      → Lasts (SameFiles O c.world) (SameFiles-KeptByCalls c.world) c.fd r
      → EndsClosed c (destroy r)
  unfolding destroy
  destroy-EndsClosed c (returns true, c1) (same, fd_kept) = close-Closed c c1 same fd_kept
  destroy-EndsClosed c (returns false, c1) (same, fd_kept) = same
  destroy-EndsClosed c (throws, c1) (same, fd_kept) = close-Closed c c1 same fd_kept
  destroy-EndsClosed c (fault, c1) (same, fd_kept) = same

  -- The task that serves a client, whatever messages come and however each of them ends: when
  -- recvMessage has returned false, and also when an exception has left handle, the client's
  -- descriptor is closed, and all other descriptors are open or closed as when the task began;
  -- while the loop goes on, and where the code has undefined behaviour, none has been opened or
  -- closed on balance.
  pub serve-EndsClosed :
      (K : Json) (hash : Text → ℕ) (fuel : ℕ) (c : Connection H)
      → EndsClosed c (serve K hash fuel c)
  unfolding serve
  serve-EndsClosed K hash fuel c = destroy-EndsClosed c (handle K hash fuel [] c) (
      handle-Keeps (SameFiles O c.world) (SameFiles-KeptByCalls c.world) K hash fuel [] c
        (λ fd. refl))
