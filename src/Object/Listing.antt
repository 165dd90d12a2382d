-- ===== src/Object/Listing.antt =====
-- aslist and asdict against the elements that the collection shows.
use mathlib.Core.List.{append-nil, append_assoc}
use python_cx_oracle.Prelude.{
  ℕ, ◌<◌, ◌≡◌, refl, sym, ap, ◌∙◌, false, some, List, [], ◌∷◌, ◌++◌, map, length,
}
use python_cx_oracle.Prelude.Int.{ℤ}
use python_cx_oracle.Error.{Result, ok, err, ◌>>=◌}
use python_cx_oracle.Types.{Transform}
use python_cx_oracle.Py.{Value}
use python_cx_oracle.Object.State.{Object, ObjectApi}
use python_cx_oracle.Object.Methods.{put_item, put_entry, as_list, as_dict, set_index, same_int}
use python_cx_oracle.Object.Walk.{
  Cells, HasElements, Shows, element_value_at, values, read_cells, walk_first-reads,
}

abbrev pub Entries : Type 0
Entries = List (ℤ × Value)

abbrev pub second : ℤ × Value → Value
second p = p.1

-- No element has the index.
abbrev pub Differ : ℤ → Cells → Type 0
Differ i [] = Unit
Differ i ((j, c) ∷ es) = (same_int i j ≡ false) × Differ i es

-- No two elements have the same index.
abbrev pub Distinct : Cells → Type 0
Distinct [] = Unit
Distinct ((i, c) ∷ es) = Differ i es × Distinct es

abbrev Lacks : Entries → ℤ → Type 0
Lacks [] k = Unit
Lacks ((j, x) ∷ es) k = (same_int j k ≡ false) × Lacks es k

abbrev AllLacked : Entries → Cells → Type 0
AllLacked acc [] = Unit
AllLacked acc ((j, c) ∷ es) = Lacks acc j × AllLacked acc es

set_index-Lacks :
    (acc : Entries) (k : ℤ) (v : Value) → Lacks acc k → set_index acc k v ≡ acc ++ ((k, v) ∷ [])
set_index-Lacks [] k v h = refl
set_index-Lacks ((j, x) ∷ acc) k v h = rw h.0 (ap (λ r. (j, x) ∷ r) (set_index-Lacks acc k v h.1))

Lacks-append :
    (acc : Entries) (i : ℤ) (v : Value) (k : ℤ)
    → Lacks acc k
    → same_int i k ≡ false
    → Lacks (acc ++ ((i, v) ∷ [])) k
Lacks-append [] i v k h d = (d, tt)
Lacks-append ((j, x) ∷ acc) i v k h d = (h.0, Lacks-append acc i v k h.1 d)

AllLacked-append :
    (acc : Entries) (i : ℤ) (v : Value) (es : Cells)
    → AllLacked acc es
    → Differ i es
    → AllLacked (acc ++ ((i, v) ∷ [])) es
AllLacked-append acc i v [] h d = tt
AllLacked-append acc i v ((j, c) ∷ es) h d =
    (Lacks-append acc i v j h.0 d.0, AllLacked-append acc i v es h.1 d.1)

AllLacked-nil : (es : Cells) → AllLacked [] es
AllLacked-nil [] = tt
AllLacked-nil ((j, c) ∷ es) = (tt, AllLacked-nil es)

-- The two results of a conversion are regrouped.
regroup :
    {A : Type 0} (i : ℤ) (r : Result Value) (s : Result Entries) (f : Value → Entries → A)
    (g : Entries → A)
    → ((v : Value) (vs : Entries) → f v vs ≡ g ((i, v) ∷ vs))
    → (r >>= λ v. s >>= λ vs. ok (f v vs))
      ≡ ((r >>= λ v. s >>= λ vs. ok ((i, v) ∷ vs)) >>= λ vs. ok (g vs))
regroup i (err e) s f g h = refl
regroup i (ok v) (err e) f g h = refl
regroup i (ok v) (ok vs) f g h = ap ok (h v vs)

same_after :
    {A : Type 0} (r : Result Value) (f g : Value → Result A)
    → ((v : Value) → f v ≡ g v)
    → (r >>= f) ≡ (r >>= g)
same_after (err e) f g h = refl
same_after (ok v) f g h = h v

module _ {S : Type 0} (api : ObjectApi S) (obj : Object) (info : Transform) where
  read_items :
      (es : Cells) (acc : List Value)
      → read_cells api obj info (put_item api) es acc
        ≡ (values api obj info es >>= λ vs. ok (acc ++ map second vs))
  read_items [] acc = ap ok (sym (append-nil acc))
  read_items ((i, c) ∷ es) acc =
      same_after (element_value_at api obj info c)
        (λ v. read_cells api obj info (put_item api) es (acc ++ (v ∷ [])))
        (λ v. values api obj info es >>= λ vs. ok ((acc ++ (v ∷ [])) ++ map second vs))
        (λ v. read_items es (acc ++ (v ∷ [])))
      ∙ regroup i (element_value_at api obj info c) (values api obj info es)
          (λ v vs. (acc ++ (v ∷ [])) ++ map second vs) (λ vs. acc ++ map second vs)
          (λ v vs. append_assoc acc (v ∷ []) (map second vs))

  read_entries :
      (es : Cells) (acc : Entries)
      → AllLacked acc es
      → Distinct es
      → read_cells api obj info (put_entry api) es acc
        ≡ (values api obj info es >>= λ vs. ok (acc ++ vs))
  read_entries [] acc l d = ap ok (sym (append-nil acc))
  read_entries ((i, c) ∷ es) acc l d =
      same_after (element_value_at api obj info c)
        (λ v. read_cells api obj info (put_entry api) es (set_index acc i v))
        (λ v. values api obj info es >>= λ vs. ok ((acc ++ ((i, v) ∷ [])) ++ vs))
        (λ v.
          ap (read_cells api obj info (put_entry api) es) (set_index-Lacks acc i v l.0)
          ∙ read_entries es (acc ++ ((i, v) ∷ [])) (AllLacked-append acc i v es l.1 d.0) d.1)
      ∙ regroup i (element_value_at api obj info c) (values api obj info es)
          (λ v vs. (acc ++ ((i, v) ∷ [])) ++ vs) (λ vs. acc ++ vs)
          (λ v vs. append_assoc acc ((i, v) ∷ []) vs)

  -- For a collection whose elements have a supported type, aslist returns the values of all its
  -- elements in the order of their indexes, and asdict the same values under those indexes, if no
  -- two elements share one; where a value cannot be converted, both raise the first such error.
  -- One more round than there are elements is enough for both loops.
  pub as_list-as_dict :
      HasElements obj info
      → (w : S) (es : Cells) (rounds : ℕ) → Shows api obj info w es
      → length es < rounds
      → (as_list api rounds obj w ≡ some (values api obj info es >>= λ vs. ok (map second vs), w))
        × (Distinct es
            → as_dict api rounds obj w ≡ some (values api obj info es >>= λ vs. ok vs, w))
  unfolding as_list as_dict
  as_list-as_dict h w es rounds s p = (
    walk_first-reads api obj info (put_item api) h w es rounds [] s p
        ∙ ap (λ r. some (r, w)) (read_items es []),
    λ d.
        walk_first-reads api obj info (put_entry api) h w es rounds [] s p
        ∙ ap (λ r. some (r, w)) (read_entries es [] (AllLacked-nil es) d),
  )
