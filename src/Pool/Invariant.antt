-- ===== src/Pool/Invariant.antt =====
-- What holds between two methods of raft/RaftConnectionPool.cpp.
use yolo_server.Prelude.{
  All-map2, Bool, ℕ, ◌≤◌, ◌≡◌, ◌≢◌, refl, ap, ◌∙◌, true, false, some, Text, List, [], ◌∷◌, arith,
  length, All, All-map, if◌then◌else◌, text_eq, text_eq_iff, ◌==◌, ==_iff, Bool-cases, inl, inr,
  subst,
}
use yolo_server.Prelude.Assoc.{
  Assoc, lookup, erase, insert, lookup-insert, lookup-erase, text_key, nat_key,
}
use yolo_server.Pool.Net.{Net, Descriptors}
use yolo_server.Pool.Connections.{
  or_empty, ConnectionInfo, RaftConnectionPool, queue_of, set_queue, forget,
}

-- The queue of a peer after a write.
pub queue_of-set_queue :
    (peer other : Text) (q : List ConnectionInfo) (p : RaftConnectionPool)
    → queue_of other (set_queue peer q p) ≡ (if text_eq peer other then q else queue_of other p)
unfolding queue_of set_queue
queue_of-set_queue peer other q p =
    ap or_empty (lookup-insert peer other q p.connection_pools) ∙ or_empty-if (text_eq peer other)
  where
    or_empty-if :
        (b : Bool)
        → or_empty (if b then some q else lookup other p.connection_pools)
          ≡ (if b then q else or_empty (lookup other p.connection_pools))
    or_empty-if true = refl
    or_empty-if false = refl

pub queue_of-forget :
    (fd : ℕ) (peer : Text) (p : RaftConnectionPool) → queue_of peer (forget fd p) ≡ queue_of peer p
unfolding queue_of forget
queue_of-forget fd peer p = refl

-- No two queued connections have the same descriptor.
abbrev pub IsDistinct : List ConnectionInfo → Type 0
IsDistinct [] = Unit
IsDistinct (c ∷ cs) = All (λ (d : ConnectionInfo). d.fd ≢ c.fd) cs × IsDistinct cs

-- The descriptor is in no queue.
abbrev pub NotQueued : ℕ → RaftConnectionPool → Type 0
NotQueued fd p = (peer : Text) → All (λ (c : ConnectionInfo). c.fd ≢ fd) (queue_of peer p)

pub lookup_other :
    (fd other : ℕ) (m : Assoc ℕ Text) → other ≢ fd → lookup other (erase fd m) ≡ lookup other m
lookup_other fd other m apart = rw (lookup-erase fd other m, differs) refl
  where
    differs : (fd == other) ≡ false
    differs = ground (arith, apart)

pub lookup-insert_other :
    (fd other : ℕ) (peer : Text) (m : Assoc ℕ Text)
    → other ≢ fd
    → lookup other (insert fd peer m) ≡ lookup other m
lookup-insert_other fd other peer m apart = rw (lookup-insert fd other peer m, differs) refl
  where
    differs : (fd == other) ≡ false
    differs = ground (arith, apart)

pub lookup_inserted :
    (fd : ℕ) (peer : Text) (m : Assoc ℕ Text) → lookup fd (insert fd peer m) ≡ some peer
lookup_inserted fd peer m = rw (lookup-insert fd fd peer m, (==_iff fd fd).1 refl) refl

module _ {N : Net} (D : Descriptors N) where
  open D use {IsOpen}

  -- A queued connection is open, and tracked for the peer in whose queue it is.
  abbrev pub IsTracked : Text → Assoc ℕ Text → N.World → ConnectionInfo → Type 0
  IsTracked peer m w c = (lookup c.fd m ≡ some peer) × IsOpen w c.fd

  pub record IsGood (peer : Text) (m : Assoc ℕ Text) (w : N.World) (q : List ConnectionInfo)
      : Type 0 where
    pub bounded : length q ≤ 5
    pub distinct : IsDistinct q
    pub tracked : All (IsTracked peer m w) q

  abbrev pub IsSound : RaftConnectionPool → N.World → Type 0
  IsSound p w = (peer : Text) → IsGood peer p.fd_to_peer_map w (queue_of peer p)

  -- A good queue stays good when its connections stay open and tracked.
  pub IsGood-map :
      {peer : Text} {m m' : Assoc ℕ Text} {w w' : N.World} {q : List ConnectionInfo}
      → ((c : ConnectionInfo) → IsTracked peer m w c → IsTracked peer m' w' c)
      → IsGood peer m w q
      → IsGood peer m' w' q
  IsGood-map {q = q} f good = record {
    bounded = good.bounded;
    distinct = good.distinct;
    tracked = All-map f q good.tracked;
  }

  -- A call that closes nothing.
  pub IsSound-keeps :
      (p : RaftConnectionPool) (w w' : N.World)
      → ((fd : ℕ) → IsOpen w fd → IsOpen w' fd)
      → IsSound p w
      → IsSound p w'
  IsSound-keeps p w w' keeps sound peer = IsGood-map (λ c t. (t.0, keeps c.fd t.1)) (sound peer)

  -- A write of a good queue.
  pub set_queue-IsSound :
      (peer : Text) (q : List ConnectionInfo) (p : RaftConnectionPool) (w : N.World)
      → IsGood peer p.fd_to_peer_map w q
      → IsSound p w
      → IsSound (set_queue peer q p) w
  unfolding set_queue
  set_queue-IsSound peer q p w good sound other = elim (Bool-cases (text_eq peer other)) [
    | inl same ↦
        rw (queue_of-set_queue peer other q p, same)
          (subst (λ r. IsGood r p.fd_to_peer_map w q) ((text_eq_iff peer other).0 same) good)
    | inr differs ↦ rw (queue_of-set_queue peer other q p, differs) (sound other)
  ]

  -- A connection that is in no queue can be closed, and forgotten too.
  pub close-IsSound :
      (fd : ℕ) (p : RaftConnectionPool) (w : N.World)
      → NotQueued fd p
      → IsSound p w
      → IsSound p (N.close fd w)
  close-IsSound fd p w free sound peer = record {
    bounded = (sound peer).bounded;
    distinct = (sound peer).distinct;
    tracked =
        All-map2 (λ c apart t. (t.0, D.close_keeps fd w c.fd apart t.1)) (queue_of peer p)
          (free peer) (sound peer).tracked;
  }

  pub forget-IsSound :
      (fd : ℕ) (p : RaftConnectionPool) (w : N.World)
      → NotQueued fd p
      → IsSound p w
      → IsSound (forget fd p) w
  unfolding forget queue_of
  forget-IsSound fd p w free sound peer = record {
    bounded = (sound peer).bounded;
    distinct = (sound peer).distinct;
    tracked =
        All-map2 (λ c apart t. (lookup_other fd c.fd p.fd_to_peer_map apart ∙ t.0, t.1))
          (queue_of peer p) (free peer) (sound peer).tracked;
  }
