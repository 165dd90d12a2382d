-- ===== src/Queue/Deq.antt =====
-- cxoQueue_deqHelper, cxoQueue_deqMany and cxoQueue_deqOne.
use python_cx_oracle.Prelude.{
  ℕ, zero, suc, Option, none, some, List, [], ◌∷◌, get_elem?, set, take, drop, map, length,
  if◌then◌else◌,
}
use python_cx_oracle.Error.{undefined, no_exception}
use python_cx_oracle.Action.{Action, pure, raise, ◌>>=◌, ◌>>◌, foreign}
use python_cx_oracle.Py.{Value}
use python_cx_oracle.Queue.State.{
  MsgProps, Queue, Content, QueueApi, Entry, as_handle, as_props, Q, release, on_error,
}

module _ {S : Type 0} where
  abbrev pub handle_in : Option Entry → Q S ℕ
  handle_in (some (as_handle h)) = pure h
  handle_in _ = raise undefined

  -- The two loops of the cleanup. A read of the wrong pointer is undefined.
  unfoldable pub drop_props : List Entry → Q S (Unit {0})
  drop_props [] = pure tt
  drop_props (as_props p ∷ es) = release p.handle >> drop_props es
  drop_props (as_handle h ∷ es) = raise undefined

  unfoldable pub release_handles : List Entry → Q S (Unit {0})
  release_handles [] = pure tt
  release_handles (as_handle h ∷ es) = release h >> release_handles es
  release_handles (as_props p ∷ es) = raise undefined

  unfoldable pub cleanup : List Entry → ℕ → Q S (Unit {0})
  unfolding drop_props release_handles
  cleanup es i = drop_props (take i es) >> release_handles (drop (suc i) es)

module _ {S : Type 0} (api : QueueApi S) where
  -- cxoMsgProps_new with a handle
  unfoldable pub props_new : Queue → ℕ → Q S MsgProps
  props_new q h =
      on_error (foreign api.alloc_props) (release h)
      >> pure (record { handle = h; payload = none; encoding = q.encoding })

  -- The payload of the Python object: an object with a reference of its own, or bytes.
  abbrev pub payload_of : Queue → Content → Action S Value
  payload_of q c = elim c.object_handle [
    | some o ↦ api.alloc_object >> (api.add_ref_object o >> pure (Value.object q.payload_type o))
    | none ↦ api.alloc_bytes c.buffer >> pure (Value.bytes c.buffer)
  ]

  abbrev pub filled_with : MsgProps → Value → MsgProps
  filled_with p v = record p { payload = some v }

  unfoldable pub get_payload : Queue → MsgProps → Action S MsgProps
  get_payload q p = api.get_payload p.handle >>= payload_of q >>= λ v. pure (filled_with p v)

  -- A message with its payload; without one the object is given up.
  unfoldable pub message : Queue → ℕ → Q S MsgProps
  unfolding props_new get_payload
  message q h = props_new q h >>= λ p. on_error (foreign (get_payload q p)) (release p.handle)

  -- One round of the loop that replaces the handle at a position by a message.
  unfoldable pub replace_handle : Queue → List Entry → ℕ → Q S (List Entry)
  unfolding message cleanup
  replace_handle q es i = handle_in (get_elem? es i) >>= λ h.
      on_error (message q h) (cleanup es i) >>= λ p. pure (set es i (as_props p))

  -- The loop, with the number of rounds left and the position.
  unfoldable pub replace_handles : Queue → ℕ → ℕ → List Entry → Q S (List Entry)
  unfolding replace_handle
  replace_handles q zero i es = pure es
  replace_handles q (suc n) i es = replace_handle q es i >>= λ fs. replace_handles q n (suc i) fs

  -- cxoQueue_deqHelper
  unfoldable pub deq_helper : Queue → ℕ → Q S (List Entry)
  unfolding replace_handles
  deq_helper q num_props = foreign (api.deq_many q.handle num_props) >>= λ hs.
      replace_handles q (length hs) 0 (map as_handle hs)

  unfoldable pub all_props : List Entry → Q S (List MsgProps)
  all_props [] = pure []
  all_props (as_props p ∷ es) = all_props es >>= λ ps. pure (p ∷ ps)
  all_props (as_handle h ∷ es) = raise undefined

  -- cxoQueue_deqMany
  unfoldable pub deq_many : Queue → ℕ → Q S (List MsgProps)
  unfolding deq_helper drop_props all_props
  deq_many q num_props = foreign (api.malloc num_props) >>= λ b.
      if b
      then (deq_helper q num_props >>= λ es.
          on_error (foreign (api.alloc_list (length es))) (drop_props es) >> all_props es)
      else raise no_exception

  abbrev pub first_message : List Entry → Q S (Option MsgProps)
  first_message [] = pure none
  first_message (as_props p ∷ es) = pure (some p)
  first_message (as_handle h ∷ es) = raise undefined

  -- cxoQueue_deqOne: `none` is None.
  unfoldable pub deq_one : Queue → Q S (Option MsgProps)
  unfolding deq_helper
  deq_one q = deq_helper q 1 >>= first_message
