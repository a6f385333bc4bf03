-- ===== src/Connection/Examples.antt =====
-- The theorems on server/Connection.cpp at concrete messages.
use mathlib.Core.Bool.{false≢true}
use mathlib.Core.Option.{none-ne-some}
use yolo_server.Prelude.{
  ap, List, ℕ, ◌≡◌, refl, none, some, Text, [], ◌∷◌, ◌++◌, arith, codes, text_eq,
}
use yolo_server.Prelude.Assoc.{erase, insert, Assoc, lookup, text_key}
use yolo_server.Json.Toy.{toy, toy-IsFaithful}
use yolo_server.Codec.Frame.{frame_value, YoloFrame}
use yolo_server.Codec.Tests.{cat_text-short, cat, cat_text, table, cat-IsPrintable}
use yolo_server.Cluster.Router.{pick_node, pick_loop, consider, score_of}
use yolo_server.Connection.Loop.{handle}
use yolo_server.Codec.RoundTrip.{read_frame-value}
use yolo_server.Connection.Requests.{
  ping_request, bare_store, AreAllowed, Request, store_request, get_request, incoming,
}
use yolo_server.Connection.Refining.{AreAnswered, handle-Holds}
use yolo_server.Connection.Tests.{machine-IsReliable, with_inbox, here, alone}

abbrev constant : Text → ℕ
constant key = 0

owned : (key : Text) → pick_node constant (here ∷ []) key ≡ some here
unfolding pick_node pick_loop consider score_of
owned key = refl

-- A PING, a STORE of the frame, a GET of it, and a STORE without a frame.
abbrev requests : List (Request (toy table))
requests =
    ping_request ∷ store_request cat_text (cat table) ∷ get_request (codes "img") ∷ bare_store ∷ []

abbrev waiting : Text
waiting = incoming (toy table) requests

abbrev empty_table : Assoc Text (YoloFrame (toy table))
empty_table = []

nowhere : (id : Text) (f : YoloFrame (toy table)) → lookup id empty_table ≡ some f → ⊥
unfolding lookup
nowhere id f e = none-ne-some f e

requests-AreAllowed :
    AreAllowed (toy table) constant (alone none (with_inbox (waiting ++ []))) [] requests
unfolding lookup insert erase text_eq
requests-AreAllowed = (
  tt,
  omega arith,
  (
    (
      (
        frame_value (toy table) (cat table),
        cat-IsPrintable.1,
        read_frame-value (toy table) (toy-IsFaithful table) (cat table),
      ),
      (cat_text, cat-IsPrintable),
      (here, owned (codes "img"), refl),
    ),
    omega (arith, cat_text-short),
    (
      (
        ((λ e. false≢true (ap (λ s. text_eq s []) e)), (refl, (refl, (refl, tt)))),
        (here, owned (codes "img"), refl),
        (cat table, refl),
      ),
      omega arith,
      (tt, omega arith, tt),
    ),
  ),
)

handle-Holds_example :
    AreAnswered
      (toy table)
      machine-IsReliable
      constant
      (toy-IsFaithful table)
      requests
      []
      (alone none (with_inbox (waiting ++ [])))
      []
      (handle (toy table) constant 4 [] (alone none (with_inbox (waiting ++ []))))
handle-Holds_example =
    handle-Holds (toy table) machine-IsReliable constant (toy-IsFaithful table) requests []
      (alone none (with_inbox (waiting ++ []))) [] [] refl (λ id f e. absurd (nowhere id f e))
      requests-AreAllowed refl
