-- ===== src/Queue/Owned.antt =====
-- Who owns the handles of the messages that have been dequeued.
use mathlib.Core.List.{Perm}
use mathlib.Core.List.Perm
use python_cx_oracle.Prelude.{ℕ, ◌≡◌, List, ◌++◌, map}
use python_cx_oracle.Error.{Error, Result, ok, err}
use python_cx_oracle.Queue.State.{MsgProps, Queue, QueueApi, Entry, as_props}
use python_cx_oracle.Queue.Handles.{handle_of, AllFilled}

module _ {S : Type 0} (api : QueueApi S) (q : Queue) where
  -- What the loop leaves of the handles that have been dequeued: each is in a message of its own, in
  -- order, or each has been released once.
  abbrev pub Owned : List ℕ → List ℕ → Result (List Entry) × (List ℕ × S) → Type 0
  Owned hs rel (ok es, w) =
      (ps : List MsgProps) × (es ≡ map as_props ps)
      × (map handle_of ps ≡ hs)
      × AllFilled ps
      × (w.0 ≡ rel)
  Owned hs rel (err e, w) = (done : List ℕ) × (w.0 ≡ rel ++ done) × Perm done hs
