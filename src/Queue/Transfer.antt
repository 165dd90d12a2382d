-- ===== src/Queue/Transfer.antt =====
-- Enqueuing against its description without the array that messages and handles share.
use mathlib.Core.List.{append-nil, append_assoc}
use python_cx_oracle.Prelude.{
  ℕ, suc, ◌≡◌, refl, sym, ap, ◌∙◌, List, [], ◌∷◌, ◌++◌, map, length, get_elem?, set,
  get_elem?-middle, set-middle,
}
use python_cx_oracle.Error.{Result, ok, err}
use python_cx_oracle.Action.{Action, pure, ◌>>=◌, >>=-ok, >>=-err}
use python_cx_oracle.Queue.State.{MsgProps, Queue, QueueApi, Entry, as_handle, as_props}
use python_cx_oracle.Queue.Enq.{
  set_payload, props_in, replace_props, replace_all, handles_of, enq_helper,
}
use python_cx_oracle.Queue.Handles.{handle_of}

-- Handles of the messages before a position, and the messages from there on.
abbrev half_sent : List ℕ → List MsgProps → List Entry
half_sent hs ps = map as_handle hs ++ map as_props ps

half_sent-step :
    (hs : List ℕ) (h : ℕ) (ps : List MsgProps)
    → map as_handle hs ++ (as_handle h ∷ map as_props ps) ≡ half_sent (hs ++ (h ∷ [])) ps
half_sent-step [] h ps = refl
half_sent-step (x ∷ hs) h ps = λ i. as_handle x ∷ half_sent-step hs h ps i

length-sent :
    (hs : List ℕ) (h : ℕ)
    → suc (length (map as_handle hs)) ≡ length (map as_handle (hs ++ (h ∷ [])))
length-sent [] h = refl
length-sent (x ∷ hs) h = ap suc (length-sent hs h)

module _ {S : Type 0} (api : QueueApi S) (q : Queue) where
  -- The payloads of the messages are handed to ODPI-C one after the other.
  unfoldable pub transfers : List MsgProps → Action S (Unit {0})
  transfers [] = pure tt
  transfers (p ∷ ps) = set_payload api p p.payload >>= λ u. transfers ps

  abbrev as_array : List ℕ → Result (Unit {0}) × S → Result (List Entry) × S
  as_array hs r = elim r.0 [ ok u ↦ (ok (map as_handle hs), r.1) | err e ↦ (err e, r.1) ]

  sent_round :
      (hs : List ℕ) (p : MsgProps) (ps : List MsgProps) (w : S)
      → replace_props api (half_sent hs (p ∷ ps)) (length (map as_handle hs)) w
        ≡ (set_payload api p p.payload >>= λ u. pure (half_sent (hs ++ (p.handle ∷ [])) ps)) w
  unfolding replace_props
  sent_round hs p ps w =
      >>=-ok (props_in api (get_elem? es (length (map as_handle hs)))) send (
        ap (λ o. props_in api o w)
          (get_elem?-middle (map as_handle hs) (as_props p) (map as_props ps)))
      ∙ ap (λ fs. (set_payload api p p.payload >>= λ u. pure fs) w)
          (set-middle (map as_handle hs) (as_props p) (as_handle p.handle) (map as_props ps)
            ∙ half_sent-step hs p.handle ps)
    where
      es : List Entry
      es = half_sent hs (p ∷ ps)

      send : MsgProps → Action S (List Entry)
      send r = set_payload api r r.payload >>= λ u.
          pure (set es (length (map as_handle hs)) (as_handle r.handle))

  replace_all-sent :
      (ps : List MsgProps) (hs : List ℕ) (w : S) (i : ℕ) (es : List Entry)
      → i ≡ length (map as_handle hs)
      → es ≡ half_sent hs ps
      → replace_all api (length ps) i es w ≡ as_array (hs ++ map handle_of ps) (transfers ps w)
  unfolding replace_all transfers
  replace_all-sent [] hs w i es j k =
      ap (λ fs. (ok fs, w))
        (k ∙ append-nil (map as_handle hs) ∙ ap (map as_handle) (sym (append-nil hs)))
  replace_all-sent (p ∷ ps) hs w i es j k =
      go (replace_all-sent ps (hs ++ (p.handle ∷ []))) (set_payload api p p.payload w) refl
    where
      fs : List Entry
      fs = half_sent (hs ++ (p.handle ∷ [])) ps

      rest : List Entry → Action S (List Entry)
      rest gs = replace_all api (length ps) (suc i) gs

      start : replace_props api es i w ≡ (set_payload api p p.payload >>= λ u. pure fs) w
      start = (λ t. replace_props api (k t) (j t) w) ∙ sent_round hs p ps w

      go :
          ((w : S) (i : ℕ) (es : List Entry)
            → i ≡ length (map as_handle (hs ++ (p.handle ∷ [])))
            → es ≡ half_sent (hs ++ (p.handle ∷ [])) ps
            → replace_all api (length ps) i es w
              ≡ as_array ((hs ++ (p.handle ∷ [])) ++ map handle_of ps) (transfers ps w))
          → (r : Result (Unit {0}) × S) → set_payload api p p.payload w ≡ r
          → (replace_props api es i >>= rest) w
            ≡ as_array
                (hs ++ (p.handle ∷ map handle_of ps))
                ((set_payload api p p.payload >>= λ u. transfers ps) w)
      go next (ok u, v) e =
          >>=-ok (replace_props api es i) rest
            (start ∙ >>=-ok (set_payload api p p.payload) (λ u. pure fs) e)
          ∙ next v (suc i) fs (ap suc j ∙ length-sent hs p.handle) refl
          ∙ ap (λ x. as_array x (transfers ps v))
              (append_assoc hs (p.handle ∷ []) (map handle_of ps))
          ∙ ap (as_array (hs ++ (p.handle ∷ map handle_of ps)))
              (sym (>>=-ok (set_payload api p p.payload) (λ u. transfers ps) e))
      go next (err x, v) e =
          >>=-err (replace_props api es i) rest
            (start ∙ >>=-err (set_payload api p p.payload) (λ u. pure fs) e)
          ∙ ap (as_array (hs ++ (p.handle ∷ map handle_of ps)))
              (sym (>>=-err (set_payload api p p.payload) (λ u. transfers ps) e))

  handles_of-all :
      (ps : List MsgProps) (w : S)
      → handles_of api (length ps) (map as_handle (map handle_of ps)) w ≡ (ok (map handle_of ps), w)
  unfolding handles_of
  handles_of-all [] w = refl
  handles_of-all (p ∷ ps) w =
      >>=-ok (handles_of api (length ps) (map as_handle (map handle_of ps)))
        (λ hs. pure (p.handle ∷ hs)) (handles_of-all ps w)

  -- Enqueuing messages sets the payload of one after the other and then hands all their handles, in
  -- order, to ODPI-C at once; where a payload is missing, cannot be converted or is refused, it
  -- fails with that error in the state then reached, and no message is enqueued. The array that is
  -- overwritten on the way is never read at the wrong type.
  pub enq_helper-transfers :
      (ps : List MsgProps) (w : S)
      → enq_helper api q (length ps) (map as_props ps) w
        ≡ (transfers ps >>= λ u. api.enq_many q.handle (map handle_of ps)) w
  unfolding enq_helper
  enq_helper-transfers ps w = go (transfers ps w) refl
    where
      send : List Entry → Action S (Unit {0})
      send fs = handles_of api (length ps) fs >>= λ hs. api.enq_many q.handle hs

      sent :
          replace_all api (length ps) 0 (map as_props ps) w
          ≡ as_array (map handle_of ps) (transfers ps w)
      sent = replace_all-sent ps [] w 0 (map as_props ps) refl refl

      go :
          (r : Result (Unit {0}) × S)
          → transfers ps w ≡ r
          → (replace_all api (length ps) 0 (map as_props ps) >>= send) w
            ≡ (transfers ps >>= λ u. api.enq_many q.handle (map handle_of ps)) w
      go (ok u, v) e =
          >>=-ok (replace_all api (length ps) 0 (map as_props ps)) send
            (sent ∙ ap (as_array (map handle_of ps)) e)
          ∙ >>=-ok (handles_of api (length ps) (map as_handle (map handle_of ps)))
              (λ hs. api.enq_many q.handle hs) (handles_of-all ps v)
          ∙ sym (>>=-ok (transfers ps) (λ u. api.enq_many q.handle (map handle_of ps)) e)
      go (err x, v) e =
          >>=-err (replace_all api (length ps) 0 (map as_props ps)) send
            (sent ∙ ap (as_array (map handle_of ps)) e)
          ∙ sym (>>=-err (transfers ps) (λ u. api.enq_many q.handle (map handle_of ps)) e)
