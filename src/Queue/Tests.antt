-- ===== src/Queue/Tests.antt =====
-- The theorems on queues, at three messages of which the second cannot be read.
use python_cx_oracle.Prelude.{
  ℕ, ◌≡◌, refl, Bool, true, none, some, List, [], ◌∷◌, ◌++◌, ◌==◌, if◌then◌else◌,
}
use python_cx_oracle.Error.{ok, err, database, message_without_payload, no_exception}
use python_cx_oracle.Action.{pure, raise, ◌>>=◌}
use python_cx_oracle.Py.{Value, codes}
use python_cx_oracle.Transform.{buffer_from_object}
use python_cx_oracle.Transform.Tests.{sample_runtime}
use python_cx_oracle.Queue.State.{MsgProps, Queue, QueueApi, as_props}
use python_cx_oracle.Queue.Deq.{deq_helper, deq_many}
use python_cx_oracle.Queue.Enq.{enq_helper, set_payload}
use python_cx_oracle.Queue.Owned.{Owned}
use python_cx_oracle.Queue.Transfer.{transfers, enq_helper-transfers}

-- The state is the handles that have been enqueued.
abbrev sample_api : QueueApi (List ℕ)
sample_api = record {
  runtime = sample_runtime;
  deq_many = λ q n. pure (4 ∷ 5 ∷ 6 ∷ []);
  enq_many = λ q hs w. (ok tt, w ++ hs);
  get_payload = λ h.
      if h == 5 then raise database else pure (record { object_handle = none; buffer = codes "x" });
  set_payload_object = λ h o. pure tt;
  set_payload_bytes = λ h b. pure tt;
  add_ref_object = λ o. pure tt;
  alloc_props = pure tt;
  alloc_object = pure tt;
  alloc_bytes = λ b. pure tt;
  alloc_list = λ n. pure tt;
  malloc = λ n. pure true;
  sequence_of = λ v. pure [];
  message_of = λ w v. none;
}

abbrev sample_queue : Queue
sample_queue = record { handle = 1; payload_type = 0; encoding = 0 }

-- The messages around the one that failed are released too.
failed_deq : deq_helper sample_api sample_queue 3 ([], []) ≡ (err database, (5 ∷ 4 ∷ 6 ∷ [], []))
unfolding deq_helper
failed_deq = refl

-- The array cannot be allocated, and no exception is set.
no_room :
    deq_many (record sample_api { malloc = λ n. pure Bool.false }) sample_queue 3 ([], [])
    ≡ (err no_exception, ([], []))
unfolding deq_many
no_room = refl

abbrev greeting : MsgProps
greeting = record { handle = 7; payload = some (Value.str (codes "hi")); encoding = 0 }

abbrev empty_message : MsgProps
empty_message = record { handle = 8; payload = none; encoding = 0 }

refused :
    transfers sample_api sample_queue (greeting ∷ empty_message ∷ []) []
    ≡ (err message_without_payload, [])
unfolding transfers set_payload buffer_from_object
refused = refl

enq_helper-transfers_example :
    enq_helper sample_api sample_queue 2 (as_props greeting ∷ as_props empty_message ∷ []) []
    ≡ (transfers sample_api sample_queue (greeting ∷ empty_message ∷ []) >>= λ u.
          sample_api.enq_many 1 (7 ∷ 8 ∷ []))
        []
enq_helper-transfers_example =
    enq_helper-transfers sample_api sample_queue (greeting ∷ empty_message ∷ []) []
