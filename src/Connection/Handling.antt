-- ===== src/Connection/Handling.antt =====
-- One message of server/Connection.cpp against the map from image ids to frames.
use mathlib.Core.Bool.{false≢true}
use mathlib.Core.Option.{some-injective}
use yolo_server.Prelude.{
  subst, text_eq_iff, append-nil, inl, inr, Bool-cases, ℕ, ◌≡◌, refl, sym, ap, ◌∙◌, true, some,
  Text, ◌++◌, codes, text_eq, if◌then◌else◌,
}
use yolo_server.Prelude.Exec.{returns}
use yolo_server.Prelude.Assoc.{lookup, insert, lookup-insert, text_key}
use yolo_server.Json.Interface.{Json, IsFaithful, IsPrintable}
use yolo_server.Codec.Frame.{YoloFrame, frame_value}
use yolo_server.Host.{Host}
use yolo_server.Server.Headers.{frame}
use yolo_server.Connection.State.{Connection, set_world, reply_with}
use yolo_server.Connection.Loop.{handle_message}
use yolo_server.Connection.Machine.{IsReliable, reply-sent, reply-stored, reply-pending}
use yolo_server.Connection.Serving.{
  ping_run, bare_store_run, bare_get_run, unknown_run, broken_store_run, store_run, get_run,
}
use yolo_server.Connection.Requests.{
  ping_request, bare_store, bare_get, broken_store, unknown_request, Request, store_request,
  get_request, Table, message_of, update, printed_frame, answer_of, framed, Holds, IsAllowed,
}

module _ (K : Json) {H : Host} (R : IsReliable H) (hash : Text → ℕ) (F : IsFaithful K) where
  open R.stream use {sent, pending}
  open R.durable use {stored}

  -- One message, handled as the map says.
  pub record Handled (c : Connection H) (table : Table K) (r : Request K) : Type 0 where
    pub after : H.World
    pub run : handle_message K hash (message_of K r) c ≡ (returns tt, set_world c after)
    pub holds : Holds K R after (update K r table)
    pub wire : sent after c.fd ≡ sent c.world c.fd ++ framed K (answer_of K r table)
    pub waiting : pending after c.fd ≡ pending c.world c.fd

  pub Holds-keeps :
      (w w' : H.World) (table : Table K)
      → ((k : Text) → stored w' k ≡ stored w k)
      → Holds K R w table
      → Holds K R w' table
  Holds-keeps w w' table kept holds id f there =
      let (t, found, printable) = holds id f there in (t, kept id ∙ found, printable)

  -- The database after a put of a frame that the map has now.
  stored_after :
      (w : H.World) (table : Table K) (f : YoloFrame K) (t : Text)
      → IsPrintable K (frame_value K f) t
      → Holds K R w table
      → Holds K R (H.put f.image_id t w).1 (insert f.image_id f table)
  stored_after w table f t printable holds id g there = elim (Bool-cases (text_eq f.image_id id)) [
    | inl same ↦
        let key = (text_eq_iff f.image_id id).0 same in
        let this = some-injective f g (
          sym (
            lookup-insert f.image_id id f table
            ∙ ap (λ b. if b then some f else lookup id table) same)
          ∙ there) in
        (
          t,
          ap (stored (H.put f.image_id t w).1) (sym key)
              ∙ R.durable.put_same f.image_id t w (R.put_ok f.image_id t w),
          subst (λ h. IsPrintable K (frame_value K h) t) this printable,
        )
    | inr other ↦
        let (u, found, fine) = holds id g (
          sym (
            lookup-insert f.image_id id f table
            ∙ ap (λ b. if b then some f else lookup id table) other)
          ∙ there) in
        (
          u,
          R.durable.put_other f.image_id t id w
                (λ e. false≢true (sym other ∙ (text_eq_iff f.image_id id).1 (sym e)))
              ∙ found,
          fine,
        )
  ]

  -- A message that leads to one reply and leaves the map as it is.
  replied :
      (c : Connection H) (table : Table K) (r : Request K) (t : Text)
      → handle_message K hash (message_of K r) c ≡ reply_with t c
      → Holds K R c.world (update K r table)
      → framed K (answer_of K r table) ≡ frame t
      → Handled c table r
  replied c table r t run holds answers = record {
    after = (reply_with t c).1.world;
    run = run;
    holds =
        Holds-keeps c.world (reply_with t c).1.world (update K r table) (reply-stored R t c) holds;
    wire = reply-sent R t c ∙ ap (λ xs. sent c.world c.fd ++ xs) (sym answers);
    waiting = reply-pending R t c;
  }

  pub handle-Handled :
      (c : Connection H) (table : Table K) (r : Request K)
      → c.storage.is_open ≡ true
      → Holds K R c.world table
      → IsAllowed K hash c table r
      → Handled c table r
  handle-Handled c table (get_request id) opened holds (word, own, (f, there)) =
      let (t, found, printable) = holds id f there in
      let w1 = (H.get id c.world).1 in
      let c1 = set_world c w1 in
      record {
        after = (reply_with t c1).1.world;
        run = get_run R K F hash c id t f opened word own found printable;
        holds =
            Holds-keeps c.world (reply_with t c1).1.world table
              (λ k. reply-stored R t c1 k ∙ R.durable.get_keeps id k c.world) holds;
        wire =
            reply-sent R t c1
            ∙ ap (λ xs. xs ++ frame t) (R.get_sent id c.world c.fd)
            ∙ ap (λ o. sent c.world c.fd ++ framed K o)
                (sym (ap (printed_frame K) there ∙ printable.0));
        waiting = reply-pending R t c1 ∙ R.get_pending id c.world c.fd;
      }
  handle-Handled c table (store_request s f) opened holds
        ((v, parsed, frame_read), (t, printable), own) =
      let w1 = (H.put f.image_id t c.world).1 in
      let c1 = set_world c w1 in
      record {
        after = (reply_with (codes "STORE OK") c1).1.world;
        run = store_run R K F hash c s t v f opened parsed frame_read printable.0 own;
        holds = λ id g there.
            let (u, found, fine) = stored_after c.world table f t printable holds id g there in
            (u, reply-stored R (codes "STORE OK") c1 id ∙ found, fine);
        wire =
            reply-sent R (codes "STORE OK") c1
            ∙ ap (λ xs. xs ++ frame (codes "STORE OK")) (R.put_sent f.image_id t c.world c.fd);
        waiting = reply-pending R (codes "STORE OK") c1 ∙ R.put_pending f.image_id t c.world c.fd;
      }
  handle-Handled c table ping_request opened holds fits =
      replied c table ping_request (codes "PONG") (ping_run K hash c) holds refl
  handle-Handled c table bare_store opened holds fits = record {
    after = c.world;
    run = bare_store_run K hash c;
    holds = holds;
    wire = sym (append-nil (sent c.world c.fd));
    waiting = refl;
  }
  handle-Handled c table bare_get opened holds fits =
      replied c table bare_get (codes "ERROR missing image_id") (bare_get_run K hash c) holds refl
  handle-Handled c table (broken_store s) opened holds fits =
      replied c table (broken_store s) (codes "ERROR invalid STORE payload")
        (broken_store_run K hash c s fits) holds refl
  handle-Handled c table (unknown_request msg) opened holds (low, fits) =
      replied c table (unknown_request msg) (codes "ERROR unknown command")
        (unknown_run K hash c msg fits) holds refl
