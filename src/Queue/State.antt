-- ===== src/Queue/State.antt =====
-- The fields of struct cxoQueue and struct cxoMsgProps (src/cxoModule.h), and the calls that leave
-- src/cxoQueue.c.
use python_cx_oracle.Prelude.{ℕ, ◌≡◌, ap, ◌∙◌, Bool, Option, List, ◌++◌, [], ◌∷◌}
use python_cx_oracle.Error.{Error, Result, ok, err}
use python_cx_oracle.Action.{Action}
use python_cx_oracle.Py.{Value}
use python_cx_oracle.Transform.{Runtime}

-- The payload is NULL until it is set.
pub record MsgProps : Type 0 where
  pub handle : ℕ
  pub payload : Option Value
  pub encoding : ℕ

-- `encoding` is that of the queue's connection; the payload type is a reference, 0 for NULL.
pub record Queue : Type 0 where
  pub handle : ℕ
  pub payload_type : ℕ
  pub encoding : ℕ

-- What dpiMsgProps_getPayload returns: an object, or NULL and bytes.
pub record Content : Type 0 where
  pub object_handle : Option ℕ
  pub buffer : List ℕ

-- The calls of ODPI-C and the allocations of Python, on a state `S` that they share.
pub record QueueApi (S : Type 0) : Type 0 where
  pub runtime : Runtime
  -- dpiQueue_deqMany returns as many handles as it has set the number to
  pub deq_many : ℕ → ℕ → Action S (List ℕ)
  pub enq_many : ℕ → List ℕ → Action S (Unit {0})
  pub get_payload : ℕ → Action S Content
  pub set_payload_object : ℕ → ℕ → Action S (Unit {0})
  pub set_payload_bytes : ℕ → List ℕ → Action S (Unit {0})
  -- dpiObject_addRef
  pub add_ref_object : ℕ → Action S (Unit {0})
  -- tp_alloc of a message and of an object, PyBytes_FromStringAndSize, PyList_New
  pub alloc_props : Action S (Unit {0})
  pub alloc_object : Action S (Unit {0})
  pub alloc_bytes : List ℕ → Action S (Unit {0})
  pub alloc_list : ℕ → Action S (Unit {0})
  -- PyMem_Malloc for a number of pointers, which may return NULL
  pub malloc : ℕ → Action S Bool
  -- PySequence_Fast, and the message that a Python object is
  pub sequence_of : Value → Action S (List Value)
  pub message_of : S → Value → Option MsgProps

-- An element of the array that `props` and `handles` both point to.
pub data Entry : Type 0 where
  as_handle : ℕ → Entry
  as_props : MsgProps → Entry

-- An action that also records the message handles that are released.
abbrev pub Q : Type 0 → Type 0 → Type 0
Q S A = Action (List ℕ × S) A

module _ {S : Type 0} where
  -- dpiMsgProps_release; also what happens to the handle when the only reference to a cxoMsgProps
  -- object is given up
  abbrev pub release : ℕ → Q S (Unit {0})
  release h w = (ok tt, (w.0 ++ (h ∷ []), w.1))

  -- The error after the cleanup, unless that is undefined.
  abbrev pub cleaned :
      {A : Type 0} → Error → Result (Unit {0}) × (List ℕ × S) → Result A × (List ℕ × S)
  cleaned e r = elim r.0 [ ok t ↦ (err e, r.1) | err x ↦ (err x, r.1) ]

  abbrev pub after_error :
      {A : Type 0} → Q S (Unit {0}) → Result A × (List ℕ × S) → Result A × (List ℕ × S)
  after_error c r = elim r.0 [ ok a ↦ (ok a, r.1) | err e ↦ cleaned e (c r.1) ]

  -- What is done after an error, before the error is returned.
  abbrev pub on_error : {A : Type 0} → Q S A → Q S (Unit {0}) → Q S A
  on_error m c w = after_error c (m w)

  pub on_error-ok :
      {A : Type 0} (m : Q S A) (c : Q S (Unit {0})) {w v : List ℕ × S} {a : A}
      → m w ≡ (ok a, v)
      → on_error m c w ≡ (ok a, v)
  on_error-ok m c e = ap (after_error c) e

  pub on_error-err :
      {A : Type 0} (m : Q S A) (c : Q S (Unit {0})) {w v u : List ℕ × S} {e : Error}
      → m w ≡ (err e, v)
      → c v ≡ (ok tt, u)
      → on_error m c w ≡ (err e, u)
  on_error-err m c {e = e} h k = ap (after_error c) h ∙ ap (cleaned e) k
