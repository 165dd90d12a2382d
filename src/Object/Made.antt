-- ===== src/Object/Made.antt =====
-- Making an object type, followed through its steps.
use python_cx_oracle.Prelude.{
  ℕ, zero, suc, ◌≡◌, Bool-cases, inl, inr, Option, none, some, List, [], ◌∷◌, ◌++◌,
}
use python_cx_oracle.Error.{Result, ok, err, Ensures}
use python_cx_oracle.Action.{pure, lift, ◌>>=◌, foreign}
use python_cx_oracle.Types.{DbType, db_type_from_transform}
use python_cx_oracle.Object.State.{ObjectAttr, ObjectType}
use python_cx_oracle.Object.Types.{
  TypeInfo, AttrInfo, TypeApi, Element, Attributes, T, decoded, nested, attr_of, attr_named,
  attr_typed, attr_described, attr_new, attrs_new, set_attribute_named, element_transform_of,
  attr_transform, no_element, element_typed, element_new, type_of, with_handles, with_element,
  with_names, with_schema, with_info, initialize, keep_type, object_type_new,
}
use python_cx_oracle.Object.Supported.{
  IsSupported, AllNamed, HasSupported, AllSupported, described-IsSupported, none-IsSupported,
  set_attribute_named-AllNamed, AllSupported-append, Gives, Gives->>=, Gives-pure, Gives-foreign,
  Gives-lift,
}

module _ {S : Type 0} (api : TypeApi S) where
  decoded-Gives : (name : List ℕ) → Gives (λ n. Unit {0}) (decoded api name)
  decoded-Gives name w h = go (api.runtime.decode api.encodings.encoding none name)
    where
      go : (r : Result (List ℕ)) → Ensures (λ n. Unit {0}) r × AllSupported w.0
      go (ok n) = (tt, h)
      go (err e) = (tt, h)

  module _ (new : ℕ → T api ℕ) (keeps : (h : ℕ) → Gives (λ r. Unit {0}) (new h)) where
    nested-Gives : (o : Option ℕ) → Gives (λ r. Unit {0}) (nested api new o)
    nested-Gives none = Gives-pure {A = Option ℕ} (λ r. Unit {0}) none tt
    nested-Gives (some h) =
        Gives->>= (λ r. Unit {0}) (λ r. Unit {0}) (new h) (λ r. pure (some r)) (keeps h)
          (λ r u. Gives-pure (λ r. Unit {0}) (some r) tt)

    abbrev AttrSupported : ObjectAttr → Type 0
    AttrSupported a = IsSupported a.transform_num

    attr_new-Gives : (h : ℕ) → Gives AttrSupported (attr_new api new h)
    unfolding attr_new
    attr_new-Gives h =
        Gives->>= (λ i. Unit {0}) AttrSupported (foreign (api.attr_info h))
          (attr_described api new h) (Gives-foreign (api.attr_info h))
          (λ info u.
            Gives->>= (λ d. db_type_from_transform (attr_transform info) ≡ ok d) AttrSupported
              (lift (db_type_from_transform (attr_transform info))) (attr_typed api new h info)
              (Gives-lift (db_type_from_transform (attr_transform info)))
              (λ d e. typed info d (described-IsSupported (attr_transform info) d e)))
      where
        named :
            (info : AttrInfo) (d : DbType) (name : List ℕ)
            → IsSupported (attr_transform info)
            → Gives AttrSupported (attr_named api new h info d name)
        named info d name s =
            Gives->>= (λ r. Unit {0}) AttrSupported (nested api new info.object_type)
              (λ ot. pure (attr_of api h info d name ot)) (nested-Gives info.object_type)
              (λ ot u. Gives-pure AttrSupported (attr_of api h info d name ot) s)

        typed :
            (info : AttrInfo) (d : DbType)
            → IsSupported (attr_transform info)
            → Gives AttrSupported (attr_typed api new h info d)
        typed info d s =
            Gives->>= (λ n. Unit {0}) AttrSupported (decoded api info.name)
              (attr_named api new h info d) (decoded-Gives info.name)
              (λ name u. named info d name s)

    abbrev AttrsSupported : Attributes → Type 0
    AttrsSupported acc = AllNamed acc.1

    attrs_new-Gives :
        (hs : List ℕ) (acc : Attributes)
        → AttrsSupported acc
        → Gives AttrsSupported (attrs_new api new hs acc)
    unfolding attrs_new
    attrs_new-Gives [] acc s = Gives-pure AttrsSupported acc s
    attrs_new-Gives (h ∷ hs) acc s =
        Gives->>= AttrSupported AttrsSupported (attr_new api new h)
          (λ a. attrs_new api new hs (acc.0 ++ (a ∷ []), set_attribute_named acc.1 a.name a))
          (attr_new-Gives h)
          (λ a t.
            attrs_new-Gives hs (acc.0 ++ (a ∷ []), set_attribute_named acc.1 a.name a)
              (set_attribute_named-AllNamed acc.1 a.name a s t))

    abbrev ElementSupported : Element → Type 0
    ElementSupported e = IsSupported e.transform

    element_new-Gives : (info : TypeInfo) → Gives ElementSupported (element_new api new info)
    unfolding element_new
    element_new-Gives info = elim (Bool-cases info.is_collection) [
      | inl e ↦ rw e (
          Gives->>= (λ d. db_type_from_transform (element_transform_of info) ≡ ok d)
            ElementSupported (lift (db_type_from_transform (element_transform_of info)))
            (element_typed api new info)
            (Gives-lift (db_type_from_transform (element_transform_of info)))
            (λ d f. typed d (described-IsSupported (element_transform_of info) d f)))
      | inr e ↦ rw e (Gives-pure ElementSupported no_element none-IsSupported)
    ]
      where
        made : DbType → Option ℕ → Element
        made d ot = record {
          transform = element_transform_of info;
          oracle_type = info.element_type_info.oracle_type_num;
          db_type = some d;
          object_type = ot;
        }

        typed :
            (d : DbType)
            → IsSupported (element_transform_of info)
            → Gives ElementSupported (element_typed api new info d)
        typed d s =
            Gives->>= (λ r. Unit {0}) ElementSupported (nested api new info.element_object_type)
              (λ ot. pure (made d ot)) (nested-Gives info.element_object_type)
              (λ ot u. Gives-pure ElementSupported (made d ot) s)

    with_element-Gives :
        (h : ℕ) (info : TypeInfo) (schema name : List ℕ) (e : Element)
        → ElementSupported e
        → Gives HasSupported (with_element api new h info schema name e)
    with_element-Gives h info schema name e s =
        Gives->>= (λ hs. Unit {0}) HasSupported (foreign (api.attributes h info.num_attributes))
          (with_handles api new h info schema name e)
          (Gives-foreign (api.attributes h info.num_attributes))
          (λ hs u.
            Gives->>= AttrsSupported HasSupported (attrs_new api new hs ([], []))
              (λ as'. pure (type_of api h info schema name e as')) (attrs_new-Gives hs ([], []) tt)
              (λ as' t.
                Gives-pure HasSupported (type_of api h info schema name e as')
                  (record { element = s; attributes = t })))

    initialize-Gives : (h : ℕ) → Gives HasSupported (initialize api new h)
    unfolding initialize
    initialize-Gives h =
        Gives->>= (λ i. Unit {0}) HasSupported (foreign (api.type_info h)) (with_info api new h)
          (Gives-foreign (api.type_info h))
          (λ info u.
            Gives->>= (λ n. Unit {0}) HasSupported (decoded api info.schema)
              (with_schema api new h info) (decoded-Gives info.schema)
              (λ schema u.
                Gives->>= (λ n. Unit {0}) HasSupported (decoded api info.name)
                  (with_names api new h info schema) (decoded-Gives info.name)
                  (λ name u.
                    Gives->>= ElementSupported HasSupported (element_new api new info)
                      (with_element api new h info schema name) (element_new-Gives info)
                      (with_element-Gives h info schema name))))

  keep_type-Gives : (t : ObjectType) → HasSupported t → Gives (λ r. Unit {0}) (keep_type api t)
  keep_type-Gives t s w h = (tt, AllSupported-append w.0 t h s)

  object_type_new-Gives : (depth h : ℕ) → Gives (λ r. Unit {0}) (object_type_new api depth h)
  unfolding object_type_new
  object_type_new-Gives zero h = λ w a. (tt, a)
  object_type_new-Gives (suc depth) h =
      Gives->>= (λ u. Unit {0}) (λ r. Unit {0}) (foreign (api.add_ref h))
        (λ u. initialize api (object_type_new api depth) h >>= keep_type api)
        (Gives-foreign (api.add_ref h))
        (λ u v.
          Gives->>= HasSupported (λ r. Unit {0}) (initialize api (object_type_new api depth) h)
            (keep_type api)
            (initialize-Gives (object_type_new api depth) (object_type_new-Gives depth) h)
            keep_type-Gives)

  -- If every object type that exists has only attributes and elements with a transform that is
  -- supported and has a row in the table of transforms, the same holds after an object type has been
  -- made with all types that it is made of, whether that succeeds or fails.
  pub object_type_new-AllSupported :
      (depth h : ℕ) (types : List ObjectType) (s : S)
      → AllSupported types
      → AllSupported (object_type_new api depth h (types, s)).1.0
  object_type_new-AllSupported depth h types s a = (object_type_new-Gives depth h (types, s) a).1
