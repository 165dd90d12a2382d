-- ===== src/Var/Made.antt =====
-- The variable that cxoVar_newByValue makes for a list.
use python_cx_oracle.Prelude.{
  ℕ, zero, suc, ◌<◌, ◌≤◌, ◌≡◌, refl, sym, ap, ◌∙◌, subst, Bool, true, false, Option, none, some,
  List, [], ◌∷◌, length, replicate, ◌==◌, ◌+◌, ◌^◌, arith, if◌then◌else◌,
}
use native.Mathlib.Nat.{mod-eq_of_lt}
use python_cx_oracle.Error
use python_cx_oracle.Error.{Result, ok, err, undefined}
use python_cx_oracle.Action.{Action, pure, lift, ◌>>=◌, >>=-inv}
use python_cx_oracle.Types.{TransformNum, Transform, DbType, get_type_info, db_type_from_transform}
use python_cx_oracle.Py.{Value, Values, items}
use python_cx_oracle.Transform.{
  Runtime, to_uint32, ValueInfo, text_length, calculate_size, max_size, scan_elements,
  get_num_from_array, get_num_from_value, get_num_from_python_value, merge_transform,
}
use python_cx_oracle.Transform.Uniform.{All, Accepted, get_num_from_array-Accepted}
use python_cx_oracle.Var.{
  Cell, Var, Dpi, null_cell, var_new, type_info, size_or_default, Chosen, created, Binder, make,
  new_of_value, choose, new_by_value, type_of_object,
}
use python_cx_oracle.Var.Copy.{Writes}

-- The database type and the native type are those of the transform.
abbrev pub IsTyped : Var → Type 0
IsTyped v =
    (db_type_from_transform v.transform_num ≡ ok v.db_type)
    × ((r : Transform) × (get_type_info v.transform_num ≡ some r)
        × (r.native_type_num ≡ v.native_type_num))

-- The length of a text or of bytes is below 2 ^ 32.
abbrev pub IsShort : Value → Type 0
IsShort x = text_length x < 2 ^ 32

-- The elements of an array for so many values; ODPI-C has no array without elements.
abbrev pub elements_for : ℕ → ℕ
elements_for n = if n == 0 then 1 else n

-- A new array for the values of a list: its transform is that of every value but leading Nones, its
-- elements have room for each value, and there are as many as values, all NULL.
pub record ArrayFor (version : ℕ) (values : List Value) (v : Var) : Type 0 where
  pub is_an_array : v.is_array ≡ true
  pub accepts : Accepted version values v.transform_num v.size
  pub counts : v.allocated_elements ≡ elements_for (length values)
  pub is_empty : v.elements ≡ replicate (elements_for (length values)) null_cell
  pub is_typed : IsTyped v

row_of :
    (o : Option Transform) (r : Transform)
    → Path (Result Transform) (elim o [ none ↦ err undefined | some r ↦ ok r ]) (ok r)
    → o ≡ some r
row_of none r h = cc
row_of (some q) r h = cc

calculate_size-short : (x : Value) (t : TransformNum) → IsShort x → calculate_size x t < 2 ^ 32
unfolding calculate_size
calculate_size-short x TransformNum.none h = omega arith
calculate_size-short x TransformNum.binary h = h
calculate_size-short x TransformNum.nstring h = h
calculate_size-short x TransformNum.string h = h
calculate_size-short x _ h = omega arith

max_size-short : (a b k : ℕ) → a < k → b < k → max_size a b < k
max_size-short a b k h l = ground arith

scan_elements-short :
    (version i : ℕ) (t : TransformNum) (size : ℕ) (vs : List Value) (r : TransformNum × ℕ)
    → size < 2 ^ 32
    → All IsShort vs
    → scan_elements version i t size vs ≡ ok r
    → r.1 < 2 ^ 32
unfolding scan_elements
scan_elements-short version i t size [] r h a e = ground arith
scan_elements-short version i t size (v ∷ vs) r h (s, a) e =
    let (u, m, rest) =
      Error.>>=-inv (merge_transform i t (get_num_from_python_value version true v)) _ e in
    scan_elements-short version (i + 1) u (max_size size (calculate_size v u)) vs r
      (max_size-short size (calculate_size v u) (2 ^ 32) h (calculate_size-short v u s)) a rest

array-short :
    (version : ℕ) (vs : List Value) (i : ValueInfo)
    → All IsShort vs
    → get_num_from_array version vs ≡ ok i
    → i.size < 2 ^ 32
unfolding get_num_from_array
array-short version vs i a e =
    let (q, m, f) = Error.>>=-inv (scan_elements version 0 TransformNum.none 0 vs) _ e in
    let same : q.1 ≡ i.size = ground arith in
    subst (λ k. k < 2 ^ 32) same
      (scan_elements-short version 0 TransformNum.none 0 vs q (omega arith) a m)

widen :
    (t : TransformNum) (vs : List Value) (m k : ℕ)
    → m ≤ k
    → All (λ x. calculate_size x t ≤ m) vs
    → All (λ x. calculate_size x t ≤ k) vs
widen t [] m k l a = tt
widen t (x ∷ vs) m k l (b, a) = (omega arith, widen t vs m k l a)

-- What is accepted with a size is accepted with a larger one.
larger-Accepted :
    (version : ℕ) (vs : List Value) (t : TransformNum) (m k : ℕ)
    → m ≤ k
    → Accepted version vs t m
    → Accepted version vs t k
larger-Accepted version vs t m k l a = record {
  nones = a.nones;
  typed = a.typed;
  splits = a.splits;
  all_none = a.all_none;
  all_typed = a.all_typed;
  all_fit = widen t a.typed m k l a.all_fit;
  supported = a.supported;
}

elements_for-short : (n : ℕ) → n < 2 ^ 32 → elements_for n < 2 ^ 32
elements_for-short n h = ground arith

module _ {S : Type 0} (d : Dpi S) (laws : Writes d) where
  -- A size that is given is the size of the elements, and no size leaves room for nothing.
  size_or_default-large :
      (m : ℕ) (t : TransformNum) → m < 2 ^ 32 → m ≤ size_or_default d (to_uint32 m) t
  size_or_default-large m t h = subst (λ k. m ≤ size_or_default d k t) (sym (mod-eq_of_lt h)) (go m)
    where
      go : (m : ℕ) → m ≤ size_or_default d m t
      go zero = omega arith
      go (suc m) = omega arith

  -- What cxoVar_new makes of its arguments.
  record NewVar (n : ℕ) (t : TransformNum) (size : ℕ) (a : Bool) (v : Var) : Type 0 where
    transform : v.transform_num ≡ t
    room : v.size ≡ size_or_default d (to_uint32 size) t
    array : v.is_array ≡ a
    number : v.allocated_elements ≡ to_uint32 (elements_for n)
    all_null : v.elements ≡ replicate (to_uint32 (elements_for n)) null_cell
    typed : IsTyped v

  var_new-NewVar :
      (n : ℕ) (t : TransformNum) (size : ℕ) (a : Bool) (o : Option ℕ) (s u : S) (v : Var)
      → var_new d n t size a o s ≡ (ok v, u)
      → NewVar n t size a v
  unfolding var_new
  var_new-NewVar n t size a o s u v e =
      let (db, s1, e1, f1) = >>=-inv (lift (db_type_from_transform t)) with_db_type s u v e in
      let (r, s2, e2, f2) = >>=-inv (lift (type_info t)) (with_row db) s1 u v f1 in
      let (p, s3, e3, f3) =
        >>=-inv (d.new_var r.oracle_type_num r.native_type_num k z a o) (with_data db r) s2 u v
          f2 in
      let (b, s4, e4, f4) =
        >>=-inv (d.size_in_bytes p.0) (λ b. pure (variable db r p b)) s3 u v f3 in
      subst (λ w. NewVar n t size a w) (same (variable db r p b) v s4 u f4)
        (record {
          transform = refl;
          room = refl;
          array = refl;
          number = refl;
          all_null = laws.all_null r.oracle_type_num r.native_type_num k z a o s2 s3 p e3;
          typed = (ap (λ q. q.0) e1, (r, row_of (get_type_info t) r (ap (λ q. q.0) e2), refl));
        })
    where
      k : ℕ
      k = to_uint32 (elements_for n)

      z : ℕ
      z = size_or_default d (to_uint32 size) t

      variable : DbType → Transform → ℕ × List Cell → ℕ → Var
      variable db r p b = record {
        handle = p.0;
        elements = p.1;
        in_converter = none;
        out_converter = none;
        object_type = o;
        allocated_elements = k;
        size = z;
        buffer_size = b;
        is_array = a;
        is_value_set = false;
        get_returned_data = false;
        transform_num = t;
        native_type_num = r.native_type_num;
        db_type = db;
      }

      with_data : DbType → Transform → ℕ × List Cell → Action S Var
      with_data db r p = d.size_in_bytes p.0 >>= λ b. pure (variable db r p b)

      with_row : DbType → Transform → Action S Var
      with_row db r = d.new_var r.oracle_type_num r.native_type_num k z a o >>= with_data db r

      with_db_type : DbType → Action S Var
      with_db_type db = lift (type_info t) >>= with_row db

      same : (x y : Var) (s t : S) → Path (Result Var × S) (ok x, s) (ok y, t) → x ≡ y
      same x y s t h = ap (λ q. elim q.0 [ ok a ↦ a | err e ↦ x ]) h

  -- The variable for an array that is accepted.
  new-ArrayFor :
      (version : ℕ) (vs : List Value) (i : ValueInfo) (v : Var)
      → length vs < 2 ^ 32
      → All IsShort vs
      → get_num_from_array version vs ≡ ok i
      → NewVar i.num_elements i.transform_num i.size i.is_array v
      → ArrayFor version vs v
  new-ArrayFor version vs i v l a e w =
      let (accepted, n, is_array) = get_num_from_array-Accepted version vs i e in
      let count : to_uint32 (elements_for i.num_elements) ≡ elements_for (length vs) =
        ap (λ k. to_uint32 (elements_for k)) n ∙ mod-eq_of_lt (elements_for-short (length vs) l) in
      record {
        is_an_array = w.array ∙ is_array;
        accepts =
            larger-Accepted version vs v.transform_num i.size v.size
              (subst (λ k. i.size ≤ k) (sym w.room)
                (size_or_default-large i.size i.transform_num (array-short version vs i a e)))
              (subst (λ t. Accepted version vs t i.size) (sym w.transform) accepted);
        counts = w.number ∙ count;
        is_empty = w.all_null ∙ ap (λ k. replicate k null_cell) count;
        is_typed = w.typed;
      }

  module _ (rt : Runtime) (b : Binder S) where
    same_chosen :
        (v : Var) (c : Chosen) (s u : S)
        → Path (Result Chosen × S) (ok (created v), s) (ok c, u)
        → c ≡ created v
    same_chosen v c s u h = cc

    list-ArrayFor :
        (is_plsql : Bool) (vs : Values) (n : ℕ) (s u : S) (c : Chosen)
        → length (items vs) < 2 ^ 32
        → All IsShort (items vs)
        → new_of_value rt d b is_plsql (Value.list vs) n s ≡ (ok c, u)
        → (v : Var) × (c ≡ created v) × ArrayFor rt.version (items vs) v
    unfolding get_num_from_value
    list-ArrayFor is_plsql vs n s u c l a e =
        let (i, s1, e1, f1) =
          >>=-inv (lift (get_num_from_array rt.version (items vs))) made s u c e in
        let (v, s2, e2, f2) =
          >>=-inv (var_new d i.num_elements i.transform_num i.size i.is_array (object_type i))
            (λ v. pure (created v)) s1 u c f1 in
        (
          v,
          same_chosen v c s2 u f2,
          new-ArrayFor rt.version (items vs) i v l a (ap (λ r. r.0) e1) (
              var_new-NewVar i.num_elements i.transform_num i.size i.is_array (object_type i) s1 s2
                v e2),
        )
      where
        object_type : ValueInfo → Option ℕ
        object_type i = type_of_object rt d i.transform_num (Value.list vs)

        made : ValueInfo → Action S Chosen
        made i = make rt d i.num_elements i.transform_num i.size i.is_array (object_type i)

    -- Where cxoVar_newByValue succeeds on a list of fewer than 2 ^ 32 values, whose texts are shorter
    -- than that, without an input type handler: the variable is a new array with as many elements as
    -- there are values, or one where there are none, all NULL. Every value but Nones in front has the
    -- transform of the variable, which is supported, and its elements have room for each of these
    -- values; its database type and native type are those of the transform, which is one of the
    -- table. A new variable of ODPI-C must have as many elements as were asked for, all NULL.
    pub new_by_value-ArrayFor :
        (is_plsql : Bool) (vs : Values) (n : ℕ) (s u : S) (c : Chosen)
        → b.input_type_handler ≡ none
        → length (items vs) < 2 ^ 32
        → All IsShort (items vs)
        → new_by_value rt d b is_plsql (Value.list vs) n s ≡ (ok c, u)
        → (v : Var) × (c ≡ created v) × ArrayFor rt.version (items vs) v
    unfolding new_by_value
    new_by_value-ArrayFor is_plsql vs n s u c h l a e =
        list-ArrayFor is_plsql vs n s u c l a
          (subst (λ o. choose rt d b o is_plsql (Value.list vs) n s ≡ (ok c, u)) h e)
