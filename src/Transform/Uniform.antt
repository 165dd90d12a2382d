-- ===== src/Transform/Uniform.antt =====
-- What an array that is accepted looks like: cxoTransform_getNumFromValue on lists.
use python_cx_oracle.Prelude.{
  ℕ, ◌+◌, ◌≤◌, ◌≡◌, ◌≢◌, ◌⊎◌, inl, inr, refl, sym, ap, ◌∙◌, subst, true, List, [], ◌∷◌, ◌++◌, arith,
  length,
}
use python_cx_oracle.Error.{ok, >>=-inv}
use python_cx_oracle.Types.{TransformNum, same_transform-cases}
use python_cx_oracle.Py.{Value}
use python_cx_oracle.Transform.Selection.{
  get_num_from_python_value, calculate_size, merge_transform, max_size, scan_elements, ValueInfo,
  get_num_from_array,
}

abbrev pub All {ℓ κ} : {A : Type ℓ} → (A → Type κ) → List A → Type κ
All P [] = Unit
All P (x ∷ xs) = P x × All P xs

-- The transform of an element of an array.
abbrev pub element_transform : ℕ → Value → TransformNum
element_transform version v = get_num_from_python_value version true v

-- What a successful merge says of its arguments.
abbrev Merged : TransformNum → TransformNum → TransformNum → Type 0
Merged t u w =
    (u ≢ TransformNum.unsupported)
    × (((t ≡ TransformNum.none) × (w ≡ u)) ⊎ ((t ≢ TransformNum.none) × (t ≡ u) × (w ≡ t)))

merge_transform-Merged :
    (i : ℕ) (t u w : TransformNum) → merge_transform i t u ≡ ok w → Merged t u w
unfolding merge_transform
merge_transform-Merged i t u w h = ground (
  arith,
  same_transform-cases u TransformNum.unsupported,
  same_transform-cases t TransformNum.none,
  same_transform-cases t u,
)

-- Once an element other than None has been met, all later ones have its transform, and the size
-- grows to the largest.
abbrev Settled : ℕ → TransformNum → ℕ → List Value → TransformNum × ℕ → Type 0
Settled version t size vs r =
    (r.0 ≡ t)
    × All (λ v. element_transform version v ≡ t) vs
    × (size ≤ r.1)
    × All (λ v. calculate_size v t ≤ r.1) vs

scan_elements-Settled :
    (version i : ℕ) (t : TransformNum) (size : ℕ) (vs : List Value) (r : TransformNum × ℕ)
    → t ≢ TransformNum.none
    → scan_elements version i t size vs ≡ ok r
    → Settled version t size vs r
unfolding scan_elements
scan_elements-Settled version i t size [] r n h = (ground arith, tt, ground arith, tt)
scan_elements-Settled version i t size (v ∷ vs) r n h =
    let (u, m, rest) = >>=-inv (merge_transform i t (element_transform version v)) _ h in
    step u (merge_transform-Merged i t (element_transform version v) u m) λ e.
      scan_elements-Settled version (i + 1) t (max_size size (calculate_size v t)) vs r n (
        subst (λ w. scan_elements version (i + 1) w (max_size size (calculate_size v w)) vs ≡ ok r)
          e rest)
  where
    step :
        (u : TransformNum)
        → Merged t (element_transform version v) u
        → (u ≡ t → Settled version t (max_size size (calculate_size v t)) vs r)
        → Settled version t size (v ∷ vs) r
    step u (s, inl (e, _)) ih = absurd (n e)
    step u (s, inr (_, e, w)) ih =
        let (a, b, c, d) = ih w in (a, (sym e, b), ground arith, (ground arith, d))

-- The elements of an accepted array: some Nones in front, then elements of one transform, for each
-- of which the size is enough.
pub record Accepted (version : ℕ) (vs : List Value) (t : TransformNum) (size : ℕ) : Type 0 where
  pub nones : List Value
  pub typed : List Value
  pub splits : vs ≡ nones ++ typed
  pub all_none : All (λ v. element_transform version v ≡ TransformNum.none) nones
  pub all_typed : All (λ v. element_transform version v ≡ t) typed
  pub all_fit : All (λ v. calculate_size v t ≤ size) typed
  pub supported : t ≢ TransformNum.unsupported

pub none_supported : TransformNum.none ≢ TransformNum.unsupported
none_supported e = cc

settled_supported :
    (version i : ℕ) (t u : TransformNum) (v : Value)
    → merge_transform i t (element_transform version v) ≡ ok u
    → u ≢ TransformNum.unsupported
settled_supported version i t u v m =
    ground (arith, merge_transform-Merged i t (element_transform version v) u m)

scan_elements-Accepted :
    (version i size : ℕ) (vs : List Value) (r : TransformNum × ℕ)
    → scan_elements version i TransformNum.none size vs ≡ ok r
    → Accepted version vs r.0 r.1
unfolding scan_elements
scan_elements-Accepted version i size [] r h = record {
  nones = [];
  typed = [];
  splits = refl;
  all_none = tt;
  all_typed = tt;
  all_fit = tt;
  supported = let e : r.0 ≡ TransformNum.none = ground arith in rw e none_supported;
}
scan_elements-Accepted version i size (v ∷ vs) r h =
    let (u, m, rest) =
      >>=-inv (merge_transform i TransformNum.none (element_transform version v)) _ h in
    elim (same_transform-cases u TransformNum.none) [
      | inl (_, e) ↦ none_first u e m rest (λ g.
          scan_elements-Accepted version (i + 1)
            (max_size size (calculate_size v TransformNum.none)) vs r g)
      | inr (_, n) ↦ typed_first u n m rest
    ]
  where
    merged :
        (u : TransformNum)
        → merge_transform i TransformNum.none (element_transform version v) ≡ ok u
        → element_transform version v ≡ u
    merged u m =
        ground (arith, merge_transform-Merged i TransformNum.none (element_transform version v) u m)

    none_first :
        (u : TransformNum)
        → u ≡ TransformNum.none
        → merge_transform i TransformNum.none (element_transform version v) ≡ ok u
        → scan_elements version (i + 1) u (max_size size (calculate_size v u)) vs ≡ ok r
        → (scan_elements version
                (i + 1)
                TransformNum.none
                (max_size size (calculate_size v TransformNum.none))
                vs
              ≡ ok r
            → Accepted version vs r.0 r.1)
        → Accepted version (v ∷ vs) r.0 r.1
    none_first u e m rest ih =
        let a = ih (
          subst
            (λ w. scan_elements version (i + 1) w (max_size size (calculate_size v w)) vs ≡ ok r) e
            rest) in
        record {
          nones = v ∷ a.nones;
          typed = a.typed;
          splits = ap (◌∷◌ v) a.splits;
          all_none = (merged u m ∙ e, a.all_none);
          all_typed = a.all_typed;
          all_fit = a.all_fit;
          supported = a.supported;
        }

    typed_first :
        (u : TransformNum)
        → u ≢ TransformNum.none
        → merge_transform i TransformNum.none (element_transform version v) ≡ ok u
        → scan_elements version (i + 1) u (max_size size (calculate_size v u)) vs ≡ ok r
        → Accepted version (v ∷ vs) r.0 r.1
    typed_first u n m rest =
        let (a, b, c, d) =
          scan_elements-Settled version (i + 1) u (max_size size (calculate_size v u)) vs r n
            rest in
        record {
          nones = [];
          typed = v ∷ vs;
          splits = refl;
          all_none = tt;
          all_typed =
              subst (λ w. All (λ x. element_transform version x ≡ w) (v ∷ vs)) (sym a)
                (merged u m, b);
          all_fit =
              subst (λ w. All (λ x. calculate_size x w ≤ r.1) (v ∷ vs)) (sym a) (ground arith, d);
          supported = rw a (settled_supported version i TransformNum.none u v m);
        }

-- An array is accepted only if it is Nones followed by elements of one supported transform, which
-- is the transform returned; the size returned is enough for each of these, and the number of
-- elements is the length of the list.
pub get_num_from_array-Accepted :
    (version : ℕ) (vs : List Value) (r : ValueInfo)
    → get_num_from_array version vs ≡ ok r
    → Accepted version vs r.transform_num r.size
      × (r.num_elements ≡ length vs)
      × (r.is_array ≡ true)
unfolding get_num_from_array
get_num_from_array-Accepted version vs r h =
    let (q, m, e) = >>=-inv (scan_elements version 0 TransformNum.none 0 vs) _ h in
    (
      let t : q.0 ≡ r.transform_num = ground arith in
          let s : q.1 ≡ r.size = ground arith in
          subst (λ u. Accepted version vs u r.size) t
            (subst (λ k. Accepted version vs q.0 k) s (scan_elements-Accepted version 0 0 vs q m)),
      ground arith,
      ground arith,
    )
