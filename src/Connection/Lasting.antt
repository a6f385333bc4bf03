-- ===== src/Connection/Lasting.antt =====
-- What each call of the machine keeps, the steps of server/Connection.cpp keep.
use yolo_server.Prelude.{
  ◌≡◌, refl, ◌∙◌, if◌then◌else◌, if◌then◌else◌, ◌≡◌, ◌∙◌, ℕ, Bool, true, false, Option, none, some,
  Text,
}
use yolo_server.Prelude.Exec.{
  Outcome, returns, throws, fault, Exec, then_run, recover, or_throw, of_outcome, or_fault, ◌>>=◌,
}
use yolo_server.Storage.Database.{value_of}
use yolo_server.Host.{Host, host_socket}
use yolo_server.Server.Keeping.{send_message-keeps}
use yolo_server.Cluster.Router.{NodeInfo}
use yolo_server.Storage.RocksDbStorage.{put_value, get_value}
use yolo_server.Connection.State.{
  or_null, Connection, set_world, reply_with, put_in, get_from_storage, or_null,
}
use yolo_server.Connection.Forward.{is_connect_failed, forward_to_node}
use yolo_server.Connection.Handlers.{after_forward, forward_request}

-- The calls of the machine that a connection makes keep the predicate.
pub record KeptByCalls (H : Host) (P : H.World → Type 0) : Type 0 where
  pub sends : (w : H.World) (fd : ℕ) (msg : Text) → P w → P (H.send w fd msg).1
  pub recvs : (w : H.World) (fd len : ℕ) → P w → P (H.recv w fd len).1
  pub puts : (w : H.World) (k v : Text) → P w → P (H.put k v w).1
  pub gets : (w : H.World) (k : Text) → P w → P (H.get k w).1
  pub nows : (w : H.World) → P w → P (H.now w).1
  pub draws : (w : H.World) → P w → P (H.draw_timeout w).1
  pub forwards :
      (w : H.World) (client : ℕ) (node : NodeInfo) (msg : Text)
      → P w
      → P (forward_to_node H client node msg w).1

module _ {H : Host} (P : H.World → Type 0) (Q : KeptByCalls H P) where
  -- The code keeps the predicate, and the descriptor of the client, however it ends.
  abbrev pub Lasts : ℕ → {A : Type 0} → Outcome A × Connection H → Type 0
  Lasts fd (o, c) = P c.world × (c.fd ≡ fd)

  abbrev pub Keeps : {A : Type 0} → Exec (Connection H) A → Type 0
  Keeps m = (c : Connection H) → P c.world → Lasts c.fd (m c)

  then-Lasts :
      {A B : Type 0} (fd : ℕ) (f : A → Exec (Connection H) B) (r : Outcome A × Connection H)
      → ((a : A) → Keeps (f a))
      → Lasts fd r
      → Lasts fd (then_run f r)
  then-Lasts fd f (returns a, c) next (p, same) = let (q, e) = next a c p in (q, e ∙ same)
  then-Lasts fd f (throws, c) next h = h
  then-Lasts fd f (fault, c) next h = h

  pub bind-Keeps :
      {A B : Type 0} (m : Exec (Connection H) A) (f : A → Exec (Connection H) B)
      → Keeps m
      → ((a : A) → Keeps (f a))
      → Keeps (m >>= f)
  bind-Keeps m f first next c p = then-Lasts c.fd f (m c) next (first c p)

  pub recover-Lasts :
      {A : Type 0} (fd : ℕ) (h : Exec (Connection H) A) (r : Outcome A × Connection H)
      → Keeps h
      → Lasts fd r
      → Lasts fd (recover h r)
  recover-Lasts fd h (returns a, c) other l = l
  recover-Lasts fd h (throws, c) other (p, same) = let (q, e) = other c p in (q, e ∙ same)
  recover-Lasts fd h (fault, c) other l = l

  pub or_throw-Keeps : {A : Type 0} (o : Option A) → Keeps (or_throw o)
  or_throw-Keeps none c p = (p, refl)
  or_throw-Keeps (some a) c p = (p, refl)

  pub of_outcome-Keeps : {A : Type 0} (o : Outcome A) → Keeps (of_outcome o)
  of_outcome-Keeps o c p = (p, refl)

  pub or_fault-Keeps : {A : Type 0} (o : Option A) → Keeps (or_fault o)
  or_fault-Keeps none c p = (p, refl)
  or_fault-Keeps (some a) c p = (p, refl)

  pub reply-Keeps : (text : Text) → Keeps (reply_with text)
  reply-Keeps text c p = (
    send_message-keeps (host_socket H) P c.fd (λ w msg q. Q.sends w c.fd msg q) text c.world p,
    refl,
  )

  pub put_in-Keeps : (key value : Text) → Keeps (put_in key value)
  unfolding put_value
  put_in-Keeps key value c p = by_state c.storage.is_open (H.put key value c.world).0
    where
      by_state :
          (opened ok : Bool)
          → Lasts c.fd (
              or_null c (
                if opened
                then some (
                    if ok
                    then (true, (H.put key value c.world).1)
                    else (false, (H.put key value c.world).1))
                else none))
      by_state true true = (Q.puts c.world key value p, refl)
      by_state true false = (Q.puts c.world key value p, refl)
      by_state false ok = (p, refl)

  pub get-Keeps : (key : Text) → Keeps (get_from_storage key)
  unfolding get_value
  get-Keeps key c p = by_state c.storage.is_open
    where
      by_state :
          (opened : Bool)
          → Lasts c.fd (
              or_null c (
                if opened
                then some (value_of (H.get key c.world).0, (H.get key c.world).1)
                else none))
      by_state true = (Q.gets c.world key p, refl)
      by_state false = (p, refl)

  after_forward-Keeps : (failure : Text) (failed : Bool) → Keeps (after_forward failure failed)
  unfolding after_forward
  after_forward-Keeps failure true c p = reply-Keeps failure c p
  after_forward-Keeps failure false c p = (p, refl)

  pub forward_request-Keeps :
      (node : NodeInfo) (msg failure : Text) → Keeps (forward_request node msg failure)
  unfolding forward_request
  forward_request-Keeps node msg failure c p =
      after_forward-Keeps failure (is_connect_failed (forward_to_node H c.fd node msg c.world).0)
        (set_world c (forward_to_node H c.fd node msg c.world).1)
        (Q.forwards c.world c.fd node msg p)
