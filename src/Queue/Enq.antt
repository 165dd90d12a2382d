-- ===== src/Queue/Enq.antt =====
-- cxoQueue_enqHelper, cxoQueue_enqMany and cxoQueue_enqOne.
use python_cx_oracle.Prelude.{
  ℕ, zero, suc, Option, none, some, List, [], ◌∷◌, get_elem?, set, length, if◌then◌else◌,
}
use python_cx_oracle.Error.{undefined, message_without_payload, expecting_messages, no_memory}
use python_cx_oracle.Action.{Action, pure, raise, lift, gets, ◌>>=◌}
use python_cx_oracle.Py.{Value, items}
use python_cx_oracle.Transform.{to_uint32, buffer_from_object}
use python_cx_oracle.Json.{buffer_bytes}
use python_cx_oracle.Queue.State.{MsgProps, Queue, QueueApi, Entry, as_handle, as_props}

module _ {S : Type 0} (api : QueueApi S) where
  abbrev set_bytes : MsgProps → Value → Action S (Unit {0})
  set_bytes p v = lift (buffer_from_object api.runtime v p.encoding) >>= λ b.
      api.set_payload_bytes p.handle (buffer_bytes b)

  -- The transfer of the payload to ODPI-C.
  unfoldable pub set_payload : MsgProps → Option Value → Action S (Unit {0})
  unfolding buffer_from_object
  set_payload p none = raise message_without_payload
  set_payload p (some Value.none) = raise message_without_payload
  set_payload p (some (Value.object t o)) = api.set_payload_object p.handle o
  set_payload p (some v) = set_bytes p v

  abbrev pub props_in : Option Entry → Action S MsgProps
  props_in (some (as_props p)) = pure p
  props_in _ = raise undefined

  -- One round of the loop that replaces the message at a position by its handle.
  unfoldable pub replace_props : List Entry → ℕ → Action S (List Entry)
  unfolding set_payload
  replace_props es i = props_in (get_elem? es i) >>= λ p.
      set_payload p p.payload >>= λ u. pure (set es i (as_handle p.handle))

  unfoldable pub replace_all : ℕ → ℕ → List Entry → Action S (List Entry)
  unfolding replace_props
  replace_all zero i es = pure es
  replace_all (suc n) i es = replace_props es i >>= λ fs. replace_all n (suc i) fs

  -- The handles that dpiQueue_enqMany reads.
  unfoldable pub handles_of : ℕ → List Entry → Action S (List ℕ)
  handles_of zero es = pure []
  handles_of (suc n) (as_handle h ∷ es) = handles_of n es >>= λ hs. pure (h ∷ hs)
  handles_of (suc n) _ = raise undefined

  -- cxoQueue_enqHelper
  unfoldable pub enq_helper : Queue → ℕ → List Entry → Action S (Unit {0})
  unfolding replace_all handles_of
  enq_helper q num_props es = replace_all num_props 0 es >>= λ fs.
      handles_of num_props fs >>= λ hs. api.enq_many q.handle hs

  -- The loop that checks the type of each item.
  unfoldable pub populate_props : List Value → Action S (List Entry)
  populate_props [] = pure []
  populate_props (v ∷ vs) = gets (λ s. api.message_of s v) >>= λ o. elim o [
    | none ↦ raise expecting_messages
    | some p ↦ populate_props vs >>= λ es. pure (as_props p ∷ es)
  ]

  unfoldable pub message_items : Value → Action S (List Value)
  message_items (Value.list vs) = pure (items vs)
  message_items (Value.tuple vs) = pure (items vs)
  message_items v = api.sequence_of v

  abbrev enq_items : Queue → List Value → Action S (Unit {0})
  enq_items q [] = pure tt
  enq_items q (v ∷ vs) = api.malloc (suc (length vs)) >>= λ b.
      if b
      then (populate_props (v ∷ vs) >>= λ es. enq_helper q (to_uint32 (length es)) es)
      else raise no_memory

  -- cxoQueue_enqMany
  unfoldable pub enq_many : Queue → Value → Action S (Unit {0})
  unfolding enq_helper populate_props message_items
  enq_many q v = message_items v >>= enq_items q

  -- cxoQueue_enqOne
  unfoldable pub enq_one : Queue → MsgProps → Action S (Unit {0})
  unfolding enq_helper
  enq_one q p = enq_helper q 1 (as_props p ∷ [])
