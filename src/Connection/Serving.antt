-- ===== src/Connection/Serving.antt =====
-- handleStore and handleGet of server/Connection.cpp on the node that owns the key.
use yolo_server.Prelude.{
  sym, inl, inr, Option-cases, none, ◌>>=◌, ℕ, ◌≢◌, ◌≡◌, refl, ap, ◌∙◌, true, false, some, Text, [],
  ◌∷◌, ◌++◌, All, codes, text_eq,
}
use yolo_server.Prelude.Exec.{returns, throws, recover}
use yolo_server.Json.Interface.{Json, IsFaithful, IsPrintable}
use yolo_server.Config.Store.{find}
use yolo_server.Codec.Frame.{read_frame, YoloFrame, frame_value, encode}
use yolo_server.Codec.RoundTrip.{decode-encode}
use yolo_server.Cluster.Router.{NodeInfo, pick_node}
use yolo_server.Host.{Host}
use yolo_server.Server.Command.{parse_command, unknown}
use yolo_server.Storage.RocksDbStorage.{put_value, get_value}
use yolo_server.Connection.State.{Connection, set_world, reply_with}
use yolo_server.Connection.Tokens.{
  is_space, skip_spaces, span_word, read_word, get_first_token, second_token,
}
use yolo_server.Connection.Handlers.{
  handle_ping, handle_unknown, store_locally, store_at, store_frame, store_payload, store_from,
  handle_store, frame_of, get_locally, get_at, get_frame, handle_get,
}
use yolo_server.Connection.Loop.{run_command, handle_message}
use yolo_server.Connection.Machine.{IsReliable}

-- A word that `>>` reads whole.
abbrev pub IsWord : Text → Type 0
IsWord id = (id ≢ []) × All (λ b. is_space b ≡ false) id

pub span_word-whole : (s : Text) → All (λ b. is_space b ≡ false) s → span_word s ≡ (s, [])
unfolding span_word
span_word-whole [] h = refl
span_word-whole (b ∷ s) (h, hs) = rw (h, span_word-whole s hs) refl

skip_one : (b : ℕ) (s : Text) → is_space b ≡ false → skip_spaces (32 ∷ b ∷ s) ≡ b ∷ s
unfolding skip_spaces
skip_one b s solid = rw solid refl

pub second_token-whole :
    (b : ℕ) (s : Text)
    → All (λ c. is_space c ≡ false) (b ∷ s)
    → second_token (codes "GET " ++ b ∷ s) ≡ b ∷ s
unfolding second_token read_word span_word skip_spaces
second_token-whole b s solid =
    ap (λ t. (span_word t).0) (skip_one b s solid.0) ∙ ap (λ r. r.0) (span_word-whole (b ∷ s) solid)

module _ {H : Host} (hash : Text → ℕ) where
  -- The router of this server gives the key to this server.
  abbrev pub Owns : Connection H → Text → Type 0
  Owns c key =
      (node : NodeInfo) × (pick_node hash c.nodes key ≡ some node)
      × (text_eq node.id c.self.id ≡ true)

module _ {H : Host} (R : IsReliable H) (K : Json) (F : IsFaithful K) (hash : Text → ℕ) where
  pub store_run :
      (c : Connection H) (s t : Text) (v : K.Value) (f : YoloFrame K)
      → c.storage.is_open ≡ true
      → K.parse s ≡ some v
      → read_frame K v ≡ some f
      → K.dump (frame_value K f) ≡ some t
      → Owns hash c f.image_id
      → handle_message K hash (codes "STORE " ++ s) c
        ≡ reply_with (codes "STORE OK") (set_world c (H.put f.image_id t c.world).1)
  unfolding handle_message run_command parse_command get_first_token read_word span_word skip_spaces
      text_eq handle_store store_from store_payload store_frame store_at store_locally find encode
      put_value
  store_run c s t v f opened parsed frame_read printed (node, picked, own) =
      rw (parsed, frame_read, picked, own, printed, opened, R.put_ok f.image_id t c.world) refl

  pub get_run :
      (c : Connection H) (id t : Text) (f : YoloFrame K)
      → c.storage.is_open ≡ true
      → IsWord id
      → Owns hash c id
      → R.durable.stored c.world id ≡ some t
      → IsPrintable K (frame_value K f) t
      → handle_message K hash (codes "GET " ++ id) c
        ≡ reply_with t (set_world c (H.get id c.world).1)
  unfolding handle_message run_command parse_command get_first_token second_token read_word
      span_word skip_spaces text_eq handle_get get_frame get_at get_locally get_value frame_of
  get_run c [] t f opened word owns there printable = absurd (word.0 refl)
  get_run c (b ∷ id) t f opened word (node, picked, own) there printable =
      rw
        (
          second_token-whole b id word.1,
          picked,
          own,
          opened,
          R.durable.get_value (b ∷ id) c.world ∙ there,
          (decode-encode K F f t printable).1,
          printable.0,
        )
        refl

-- The messages that lead to one fixed reply.
module _ {H : Host} (K : Json) (hash : Text → ℕ) (c : Connection H) where
  pub ping_run : handle_message K hash (codes "PING") c ≡ reply_with (codes "PONG") c
  unfolding handle_message run_command parse_command get_first_token read_word span_word skip_spaces
      text_eq handle_ping
  ping_run = refl

  pub bare_store_run : handle_message K hash (codes "STORE") c ≡ (returns tt, c)
  unfolding handle_message run_command parse_command get_first_token read_word span_word skip_spaces
      text_eq handle_store store_from find
  bare_store_run = refl

  pub bare_get_run :
      handle_message K hash (codes "GET") c ≡ reply_with (codes "ERROR missing image_id") c
  unfolding handle_message run_command parse_command get_first_token second_token read_word
      span_word skip_spaces text_eq handle_get get_frame
  bare_get_run = refl

  pub unknown_run :
      (msg : Text)
      → parse_command (get_first_token msg) ≡ unknown
      → handle_message K hash msg c ≡ reply_with (codes "ERROR unknown command") c
  unfolding handle_message run_command handle_unknown
  unknown_run msg e = rw e refl

  store_payload-throws :
      (msg s : Text)
      → (K.parse s >>= read_frame K) ≡ none
      → store_payload K hash msg s c ≡ (throws, c)
  unfolding store_payload
  store_payload-throws msg s h = elim (Option-cases (K.parse s)) [
    | inl failed ↦ rw failed refl
    | inr (v, parsed) ↦
        let not_read : read_frame K v ≡ none = ap (λ o. o >>= read_frame K) (sym parsed) ∙ h in
        rw (parsed, not_read) refl
  ]

  pub broken_store_run :
      (s : Text)
      → (K.parse s >>= read_frame K) ≡ none
      → handle_message K hash (codes "STORE " ++ s) c
        ≡ reply_with (codes "ERROR invalid STORE payload") c
  unfolding handle_message run_command parse_command get_first_token read_word span_word skip_spaces
      text_eq handle_store store_from find
  broken_store_run s h =
      ap (recover (reply_with (codes "ERROR invalid STORE payload")))
        (store_payload-throws (codes "STORE " ++ s) s h)
