-- ===== src/Transform/Accepting.antt =====
-- Which arrays cxoTransform_getNumFromValue accepts.
use python_cx_oracle.Prelude.{ℕ, ◌+◌, ◌≡◌, ◌≢◌, refl, true, List, [], ◌∷◌, ◌++◌, arith, length}
use python_cx_oracle.Error.{ok, err, element_type_differs}
use python_cx_oracle.Types.{TransformNum, same_transform-cases}
use python_cx_oracle.Py.{Value}
use python_cx_oracle.Transform.Selection.{
  get_num_from_python_value, calculate_size, merge_transform, max_size, scan_elements, ValueInfo,
  get_num_from_array,
}
use python_cx_oracle.Transform.Uniform.{All, element_transform, none_supported}

settled_accepts :
    (version i : ℕ) (t : TransformNum) (size : ℕ) (vs : List Value)
    → t ≢ TransformNum.none
    → t ≢ TransformNum.unsupported
    → All (λ v. element_transform version v ≡ t) vs
    → (s : ℕ) × (scan_elements version i t size vs ≡ ok (t, s))
unfolding scan_elements merge_transform
settled_accepts version i t size [] n s h = (size, refl)
settled_accepts version i t size (v ∷ vs) n s h =
    let (k, e) =
      settled_accepts version (i + 1) t (max_size size (calculate_size v t)) vs n s h.1 in
    (
      k,
      ground (
        arith,
        same_transform-cases t TransformNum.unsupported,
        same_transform-cases t TransformNum.none,
        same_transform-cases t t,
      ),
    )

nones_accept :
    (version i size : ℕ) (ns ws : List Value) (t : TransformNum)
    → All (λ v. element_transform version v ≡ TransformNum.none) ns
    → ((j k : ℕ) → (s : ℕ) × (scan_elements version j TransformNum.none k ws ≡ ok (t, s)))
    → (s : ℕ) × (scan_elements version i TransformNum.none size (ns ++ ws) ≡ ok (t, s))
unfolding scan_elements merge_transform
nones_accept version i size [] ws t h rest = rest i size
nones_accept version i size (v ∷ ns) ws t h rest =
    let (s, e) =
      nones_accept version (i + 1) (max_size size (calculate_size v TransformNum.none)) ns ws t h.1
        rest in
    (s, rw h.0 e)

typed_accept :
    (version i size : ℕ) (v : Value) (ws : List Value) (t : TransformNum)
    → t ≢ TransformNum.none
    → t ≢ TransformNum.unsupported
    → All (λ x. element_transform version x ≡ t) (v ∷ ws)
    → (s : ℕ) × (scan_elements version i TransformNum.none size (v ∷ ws) ≡ ok (t, s))
unfolding scan_elements merge_transform
typed_accept version i size v ws t n s h =
    let (k, e) =
      settled_accepts version (i + 1) t (max_size size (calculate_size v t)) ws n s h.1 in
    (k, rw h.0 (ground (arith, same_transform-cases t TransformNum.unsupported)))

-- Nones followed by at least one element of a supported transform other than that of None, all of
-- the same, are accepted with that transform.
pub get_num_from_array_accepts :
    (version : ℕ) (ns : List Value) (v : Value) (ws : List Value) (t : TransformNum)
    → t ≢ TransformNum.none
    → t ≢ TransformNum.unsupported
    → All (λ x. element_transform version x ≡ TransformNum.none) ns
    → All (λ x. element_transform version x ≡ t) (v ∷ ws)
    → (r : ValueInfo) × (get_num_from_array version (ns ++ v ∷ ws) ≡ ok r) × (r.transform_num ≡ t)
unfolding get_num_from_array
get_num_from_array_accepts version ns v ws t n s hn ht =
    let (k, e) =
      nones_accept version 0 0 ns (v ∷ ws) t hn (λ j c. typed_accept version j c v ws t n s ht) in
    (
      record { transform_num = t; size = k; is_array = true; num_elements = length (ns ++ v ∷ ws) },
      rw e refl,
      refl,
    )

merge_first :
    (i : ℕ) (u : TransformNum)
    → u ≢ TransformNum.unsupported
    → merge_transform i TransformNum.none u ≡ ok u
unfolding merge_transform
merge_first i u s = ground (arith, same_transform-cases u TransformNum.unsupported)

merge_refused :
    (i : ℕ) (t u : TransformNum)
    → t ≢ TransformNum.none
    → u ≢ TransformNum.unsupported
    → t ≢ u
    → merge_transform i t u ≡ err (element_type_differs i)
unfolding merge_transform
merge_refused i t u n s d = ground (
  arith,
  same_transform-cases u TransformNum.unsupported,
  same_transform-cases t TransformNum.none,
  same_transform-cases t u,
)

element_transform-none : (version : ℕ) → element_transform version Value.none ≡ TransformNum.none
unfolding get_num_from_python_value
element_transform-none version = refl

-- A None behind a value of a supported transform is refused, although a None in front of that value
-- is not.
pub get_num_from_array_none_after :
    (version : ℕ) (v : Value) (ws : List Value)
    → element_transform version v ≢ TransformNum.none
    → element_transform version v ≢ TransformNum.unsupported
    → get_num_from_array version (v ∷ Value.none ∷ ws) ≡ err (element_type_differs 1)
unfolding get_num_from_array
get_num_from_array_none_after version v ws n s =
    rw (merge_first 0 (element_transform version v) s) (
      rw (element_transform-none version)
        (rw (merge_refused 1 (element_transform version v) TransformNum.none n none_supported n)))
