-- ===== src/Object/Extend.antt =====
-- What is appended to a collection is what aslist returns.
use mathlib.Core.List.{append-nil, append_assoc}
use python_cx_oracle.Prelude.{
  ℕ, suc, ◌+◌, ◌<◌, ◌≡◌, refl, sym, ap, ◌∙◌, subst, ◌⊎◌, Option, some, List, [], ◌∷◌, ◌++◌, map,
  length, length-append, arith,
}
use python_cx_oracle.Prelude.Int.{ℤ}
use python_cx_oracle.Error.{Result, ok, err, ◌>>=◌ as ◌and_then◌}
use python_cx_oracle.Action.{lift, >>=-ok, >>=-inv}
use python_cx_oracle.Types.{Transform, NativeTypeNum}
use python_cx_oracle.Py.{Value}
use python_cx_oracle.Var.{Cell, null_cell}
use python_cx_oracle.Object.State.{Object, ObjectApi}
use python_cx_oracle.Object.Values.{convert_from_python}
use python_cx_oracle.Object.Methods.{append, append_all, sequence_items, extend, as_list}
use python_cx_oracle.Object.Walk.{
  Cells, HasElements, Shows, element_transform, element_value_at, values,
}
use python_cx_oracle.Object.Listing.{Entries, second, as_list-as_dict}

map-append : (xs ys : Entries) → map second (xs ++ ys) ≡ map second xs ++ map second ys
map-append [] ys = refl
map-append (x ∷ xs) ys = ap (λ r. second x ∷ r) (map-append xs ys)

module _ {S : Type 0} (api : ObjectApi S) (obj : Object) (info : Transform) where
  -- The dpiData comes back as it is if it is NULL or has the native type that is asked for.
  abbrev pub ReadsBack : Option NativeTypeNum → Cell → Type 0
  ReadsBack native c = (native ≡ some info.native_type_num) ⊎ (c ≡ null_cell)

  -- What ODPI-C documents of a collection: the elements that it has in a state, and that an append
  -- that succeeds adds one after them, which is what the database keeps of the data.
  pub record Collection : Type 0 where
    pub contents : S → Cells
    pub shows : (w : S) → Shows api obj info w (contents w)
    pub stored : Cell → Cell
    pub appends :
        (w u : S) (native : Option NativeTypeNum) (c : Cell)
        → ReadsBack native c
        → api.append_element obj.handle native c w ≡ (ok tt, u)
        → (i : ℤ) × (contents u ≡ contents w ++ ((i, stored c) ∷ []))

  -- The value is converted for an element, and what is kept of it back into the other value.
  pub record Survives (col : Collection) (v v' : Value) : Type 0 where
    pub native : Option NativeTypeNum
    pub cell : Cell
    pub reads_back : ReadsBack native cell
    pub there : convert_from_python api obj (element_transform obj) (some v) ≡ ok (native, cell)
    pub back : element_value_at api obj info (col.stored cell) ≡ ok v'

  abbrev pub AllSurvive : Collection → List Value → List Value → Type 0
  AllSurvive col [] [] = Unit
  AllSurvive col [] (v' ∷ vs') = ⊥
  AllSurvive col (v ∷ vs) [] = ⊥
  AllSurvive col (v ∷ vs) (v' ∷ vs') = Survives col v v' × AllSurvive col vs vs'

  values-append :
      (xs ys : Cells) (as' bs : Entries)
      → values api obj info xs ≡ ok as'
      → values api obj info ys ≡ ok bs
      → values api obj info (xs ++ ys) ≡ ok (as' ++ bs)
  values-append [] ys as' bs h k =
      subst (λ r. values api obj info ys ≡ ok (r ++ bs)) (nil_of as' h) k
    where
      nil_of : (as' : Entries) → Path (Result Entries) (ok []) (ok as') → Path Entries [] as'
      nil_of as' h = cc
  values-append ((i, c) ∷ xs) ys as' bs h k =
      go (element_value_at api obj info c) (values api obj info xs) as' (values-append xs ys) h
    where
      go :
          (r : Result Value) (s : Result Entries) (as' : Entries)
          → ((es bs : Entries)
              → s ≡ ok es
              → values api obj info ys ≡ ok bs
              → values api obj info (xs ++ ys) ≡ ok (es ++ bs))
          → (r and_then λ v. s and_then λ vs. ok ((i, v) ∷ vs)) ≡ ok as'
          → (r and_then λ v. values api obj info (xs ++ ys) and_then λ vs. ok ((i, v) ∷ vs))
            ≡ ok (as' ++ bs)
      go (err e) s as' ih h = cc
      go (ok v) (err e) as' ih h = cc
      go (ok v) (ok vs) as' ih h =
          ap (λ r. r and_then λ vs. ok ((i, v) ∷ vs)) (ih vs bs refl k)
          ∙ ap (λ r. r and_then λ es. ok (es ++ bs)) h

  -- What a run of appends that succeeds has added.
  record Extended (col : Collection) (w after : S) (vs vs' : List Value) : Type 0 where
    new : Cells
    entries : Entries
    held : col.contents after ≡ col.contents w ++ new
    converted : values api obj info new ≡ ok entries
    shown : map second entries ≡ vs'
    counted : length new ≡ length vs

  -- An append that succeeds has called ODPI-C with the converted value.
  append-inv :
      (col : Collection) (v v' : Value) (s : Survives col v v') (w u : S)
      → append api obj v w ≡ (ok tt, u)
      → api.append_element obj.handle s.native s.cell w ≡ (ok tt, u)
  unfolding append
  append-inv col v v' s w u h =
      sym (
        >>=-ok (lift (convert_from_python api obj (element_transform obj) (some v)))
          (λ d. api.append_element obj.handle d.0 d.1) {w = w} (ap (λ r. (r, w)) s.there))
      ∙ h

  append_all-Extended :
      (col : Collection) (vs vs' : List Value) (w after : S)
      → AllSurvive col vs vs'
      → append_all api obj vs w ≡ (ok tt, after)
      → Extended col w after vs vs'
  unfolding append_all
  append_all-Extended col [] [] w after h e = record {
    new = [];
    entries = [];
    held = ap (λ r. col.contents r.1) (sym e) ∙ sym (append-nil (col.contents w));
    converted = refl;
    shown = refl;
    counted = refl;
  }
  append_all-Extended col [] (v' ∷ vs') w after h e = absurd h
  append_all-Extended col (v ∷ vs) [] w after h e = absurd h
  append_all-Extended col (v ∷ vs) (v' ∷ vs') w after h e =
      let s : Survives col v v' = h.0 in
      let (t, u, e1, e2) = >>=-inv (append api obj v) (λ t. append_all api obj vs) w after tt e in
      let (i, c) = col.appends w u s.native s.cell s.reads_back (append-inv col v v' s w u e1) in
      let r = append_all-Extended col vs vs' u after h.1 e2 in
      record {
        new = (i, col.stored s.cell) ∷ r.new;
        entries = (i, v') ∷ r.entries;
        held =
            r.held
            ∙ ap (λ es. es ++ r.new) c
            ∙ append_assoc (col.contents w) ((i, col.stored s.cell) ∷ []) r.new;
        converted =
            ap (λ x. x and_then λ y. values api obj info r.new and_then λ ys. ok ((i, y) ∷ ys))
              s.back
            ∙ ap (λ x. x and_then λ ys. ok ((i, v') ∷ ys)) r.converted;
        shown = ap (λ ys. v' ∷ ys) r.shown;
        counted = ap suc r.counted;
      }

  -- Where each value of a sequence can be converted for an element, and what the database keeps of it
  -- comes back as another value, and extend succeeds on a collection whose elements can all be read:
  -- aslist then returns the old values followed by those that come back, in order, if its loop has
  -- more rounds than there are elements. An append of ODPI-C that succeeds must add its element behind
  -- the others.
  pub extend_then_as_list :
      HasElements obj info
      → (col : Collection) (w u : S) (old : Entries) (sequence : Value) (vs vs' : List Value)
      → values api obj info (col.contents w) ≡ ok old
      → sequence_items api sequence w ≡ (ok vs, w)
      → AllSurvive col vs vs'
      → extend api obj sequence w ≡ (ok tt, u)
      → (rounds : ℕ) → length (col.contents w) + length vs < rounds
      → as_list api rounds obj u ≡ some (ok (map second old ++ vs'), u)
  unfolding extend
  extend_then_as_list h col w u old sequence vs vs' o q s x rounds p =
      let r =
        append_all-Extended col vs vs' w u s
          (sym (>>=-ok (sequence_items api sequence) (append_all api obj) q) ∙ x) in
      (as_list-as_dict api obj info h u (col.contents u) rounds (col.shows u) (enough r)).0
      ∙ ap (λ x. some (x and_then λ es. ok (map second es), u))
          (ap (values api obj info) r.held
            ∙ values-append (col.contents w) r.new old r.entries o r.converted)
      ∙ ap (λ x. some (ok x, u))
          (map-append old r.entries ∙ ap (λ ys. map second old ++ ys) r.shown)
    where
      enough : (r : Extended col w u vs vs') → length (col.contents u) < rounds
      enough r =
          let e = ap length r.held in
          let f = length-append (col.contents w) r.new in
          let g = r.counted in omega (arith, e, f, g, p)
