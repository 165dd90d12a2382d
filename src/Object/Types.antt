-- ===== src/Object/Types.antt =====
-- src/cxoObjectType.c and src/cxoObjectAttr.c: object types, read from the data dictionary.
use python_cx_oracle.Prelude.{
  ℕ, zero, suc, Bool, true, false, not, ◌&&◌, ◌||◌, ◌==◌, Option, none, some, List, [], ◌∷◌, ◌++◌,
  length, if◌then◌else◌,
}
use python_cx_oracle.Error.{ok, undefined}
use python_cx_oracle.Action.{Action, pure, raise, lift, ◌>>=◌, ◌>>◌, foreign}
use python_cx_oracle.Types.{
  TransformNum, OracleTypeNum, DbType, DataTypeInfo, get_num_from_data_type_info,
  db_type_from_transform,
}
use python_cx_oracle.Py.{Value}
use python_cx_oracle.Transform.{Runtime, EncodingInfo, buffer_from_object}
use python_cx_oracle.Json.{same_text, buffer_bytes}
use python_cx_oracle.Object.State.{Object, ObjectAttr, ObjectType, ObjectApi}
use python_cx_oracle.Object.Methods.{extend}

-- dpiObjectTypeInfo, and dpiObjectAttrInfo
pub record TypeInfo : Type 0 where
  pub schema : List ℕ
  pub name : List ℕ
  pub is_collection : Bool
  pub element_type_info : DataTypeInfo
  pub element_object_type : Option ℕ
  pub num_attributes : ℕ

pub record AttrInfo : Type 0 where
  pub name : List ℕ
  pub type_info : DataTypeInfo
  pub object_type : Option ℕ

-- The calls of ODPI-C on types, and the connection that they are read with.
pub record TypeApi (S : Type 0) : Type 0 where
  pub runtime : Runtime
  pub encodings : EncodingInfo
  pub connection : ℕ
  pub type_info : ℕ → Action S TypeInfo
  pub attributes : ℕ → ℕ → Action S (List ℕ)
  pub attr_info : ℕ → Action S AttrInfo
  pub add_ref : ℕ → Action S (Unit {0})
  pub release : ℕ → Action S (Unit {0})
  pub get_object_type : List ℕ → Action S ℕ
  pub create_object : ℕ → Action S ℕ

abbrev pub attr_transform : AttrInfo → TransformNum
attr_transform info = get_num_from_data_type_info info.type_info

abbrev pub element_transform_of : TypeInfo → TransformNum
element_transform_of info = get_num_from_data_type_info info.element_type_info

-- PyDict_SetItem on the attributes.
abbrev pub set_attribute_named :
    List (List ℕ × ObjectAttr) → List ℕ → ObjectAttr → List (List ℕ × ObjectAttr)
set_attribute_named [] name a = (name, a) ∷ []
set_attribute_named ((k, b) ∷ rest) name a =
    if same_text k name then (k, a) ∷ rest else (k, b) ∷ set_attribute_named rest name a

-- The element's transform, database type and object type: the fields of a type that is no
-- collection stay zero.
pub record Element : Type 0 where
  pub transform : TransformNum
  pub oracle_type : OracleTypeNum
  pub db_type : Option DbType
  pub object_type : Option ℕ

abbrev pub no_element : Element
no_element = record {
  transform = TransformNum.none;
  oracle_type = OracleTypeNum.none;
  db_type = none;
  object_type = none;
}

abbrev pub Attributes : Type 0
Attributes = List ObjectAttr × List (List ℕ × ObjectAttr)

module _ {S : Type 0} (api : TypeApi S) where
  -- The object types that have been made, by reference, and the state of ODPI-C.
  abbrev pub T : Type 0 → Type 0
  T A = Action (List ObjectType × S) A

  abbrev pub decoded : List ℕ → T (List ℕ)
  decoded name = lift (api.runtime.decode api.encodings.encoding none name)

  abbrev pub nested : (ℕ → T ℕ) → Option ℕ → T (Option ℕ)
  nested new none = pure none
  nested new (some h) = new h >>= λ r. pure (some r)

  abbrev pub attr_of : ℕ → AttrInfo → DbType → List ℕ → Option ℕ → ObjectAttr
  attr_of h info d name ot = record {
    handle = h;
    name = name;
    db_type = d;
    oracle_type_num = info.type_info.oracle_type_num;
    transform_num = attr_transform info;
    object_type = ot;
  }

  abbrev pub attr_named : (ℕ → T ℕ) → ℕ → AttrInfo → DbType → List ℕ → T ObjectAttr
  attr_named new h info d name =
      nested new info.object_type >>= λ ot. pure (attr_of h info d name ot)

  abbrev pub attr_typed : (ℕ → T ℕ) → ℕ → AttrInfo → DbType → T ObjectAttr
  attr_typed new h info d = decoded info.name >>= attr_named new h info d

  abbrev pub attr_described : (ℕ → T ℕ) → ℕ → AttrInfo → T ObjectAttr
  attr_described new h info =
      lift (db_type_from_transform (attr_transform info)) >>= attr_typed new h info

  -- cxoObjectAttr_new and cxoObjectAttr_initialize; `new` is cxoObjectType_new.
  unfoldable pub attr_new : (ℕ → T ℕ) → ℕ → T ObjectAttr
  attr_new new h = foreign (api.attr_info h) >>= attr_described new h

  -- The loop over the attributes.
  unfoldable pub attrs_new : (ℕ → T ℕ) → List ℕ → Attributes → T Attributes
  unfolding attr_new
  attrs_new new [] acc = pure acc
  attrs_new new (h ∷ hs) acc = attr_new new h >>= λ a.
      attrs_new new hs (acc.0 ++ (a ∷ []), set_attribute_named acc.1 a.name a)

  abbrev pub element_typed : (ℕ → T ℕ) → TypeInfo → DbType → T Element
  element_typed new info d = nested new info.element_object_type >>= λ ot. pure (record {
    transform = element_transform_of info;
    oracle_type = info.element_type_info.oracle_type_num;
    db_type = some d;
    object_type = ot;
  })

  unfoldable pub element_new : (ℕ → T ℕ) → TypeInfo → T Element
  element_new new info =
      if info.is_collection
      then (lift (db_type_from_transform (element_transform_of info)) >>= element_typed new info)
      else pure no_element

  abbrev pub type_of : ℕ → TypeInfo → List ℕ → List ℕ → Element → Attributes → ObjectType
  type_of h info schema name e as' = record {
    handle = h;
    connection = api.connection;
    schema = schema;
    name = name;
    is_collection = info.is_collection;
    attributes = as'.0;
    attributes_by_name = as'.1;
    element_oracle_type_num = e.oracle_type;
    element_transform_num = e.transform;
    element_db_type = e.db_type;
    element_object_type = e.object_type;
    encodings = api.encodings;
  }

  abbrev pub with_handles :
      (ℕ → T ℕ) → ℕ → TypeInfo → List ℕ → List ℕ → Element → List ℕ → T ObjectType
  with_handles new h info schema name e hs =
      attrs_new new hs ([], []) >>= λ as'. pure (type_of h info schema name e as')

  abbrev pub with_element : (ℕ → T ℕ) → ℕ → TypeInfo → List ℕ → List ℕ → Element → T ObjectType
  with_element new h info schema name e =
      foreign (api.attributes h info.num_attributes) >>= with_handles new h info schema name e

  abbrev pub with_names : (ℕ → T ℕ) → ℕ → TypeInfo → List ℕ → List ℕ → T ObjectType
  with_names new h info schema name = element_new new info >>= with_element new h info schema name

  abbrev pub with_schema : (ℕ → T ℕ) → ℕ → TypeInfo → List ℕ → T ObjectType
  with_schema new h info schema = decoded info.name >>= with_names new h info schema

  abbrev pub with_info : (ℕ → T ℕ) → ℕ → TypeInfo → T ObjectType
  with_info new h info = decoded info.schema >>= with_schema new h info

  -- cxoObjectType_initialize
  unfoldable pub initialize : (ℕ → T ℕ) → ℕ → T ObjectType
  unfolding attrs_new element_new
  initialize new h = foreign (api.type_info h) >>= with_info new h

  abbrev pub keep_type : ObjectType → T ℕ
  keep_type t s = (ok (length s.0), (s.0 ++ (t ∷ []), s.1))

  -- cxoObjectType_new: a type is made with the types of its attributes and elements, to a depth that
  -- the stack has room for.
  unfoldable pub object_type_new : ℕ → ℕ → T ℕ
  unfolding initialize
  object_type_new zero h = raise undefined
  object_type_new (suc depth) h =
      foreign (api.add_ref h) >> (initialize (object_type_new depth) h >>= keep_type)

  abbrev released_after : ℕ → ℕ → T ℕ
  released_after depth h s =
      let (r, v) = object_type_new depth h s in (r, (v.0, (api.release h v.1).1))

  -- cxoObjectType_newByName: the handle is released whether or not the type could be made.
  unfoldable pub new_by_name : ℕ → Value → T ℕ
  unfolding object_type_new buffer_from_object
  new_by_name depth name = do
    b ← lift (buffer_from_object api.runtime name api.encodings.encoding)
    h ← foreign (api.get_object_type (buffer_bytes b))
    released_after depth h

  -- cxoObjectType_newObject: the object is populated by an initial value.
  unfoldable pub new_object : ObjectApi S → ObjectType → Option Value → Action S Object
  unfolding extend
  new_object objects t none =
      api.create_object t.handle >>= λ h. pure (record { handle = h; object_type = t })
  new_object objects t (some v) = api.create_object t.handle >>= λ h.
      extend objects (record { handle = h; object_type = t }) v
      >> pure (record { handle = h; object_type = t })

-- cxoObjectType_getElementType and cxoObjectAttr_getType
unfoldable pub get_element_type : ObjectType → Value
get_element_type t = elim t.element_object_type [
  | some r ↦ Value.object_type r
  | none ↦ elim t.element_db_type [ some d ↦ Value.db_type d | none ↦ Value.none ]
]

unfoldable pub get_type : ObjectAttr → Value
get_type a = elim a.object_type [ some r ↦ Value.object_type r | none ↦ Value.db_type a.db_type ]

pub data CompareOp : Type 0 where
  eq ne other : CompareOp

abbrev same_pool : Option ℕ → Option ℕ → Bool
same_pool none none = true
same_pool (some a) (some b) = a == b
same_pool _ _ = false

-- cxoObjectType_richCompare with another object type, given the session pool of each connection;
-- `none` is NotImplemented.
unfoldable pub rich_compare : (ℕ → Option ℕ) → ObjectType → ObjectType → CompareOp → Option Bool
rich_compare pool_of t u op =
    let same =
      ((u.connection == t.connection) || same_pool (pool_of u.connection) (pool_of t.connection))
      && (same_text u.schema t.schema && same_text u.name t.name) in
    elim op [ eq ↦ some same | ne ↦ some (not same) | other ↦ none ]
