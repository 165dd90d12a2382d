-- ===== src/Cursor/Deferred.antt =====
-- Positional binds whose type is deferred, as cxoCursor_executeMany does for None in every row but
-- the last.
use python_cx_oracle.Prelude.{ℕ, ◌≡◌, refl, Option, none, some, [], ◌∷◌}
use python_cx_oracle.Prelude.Int.{ℤ}
use python_cx_oracle.Py.{Value}
use python_cx_oracle.Cursor.{
  null, holds, unbound, by_position, Cursor, Variables, Parameters, bind_rows,
}

module _ {S : Type 0} (d : Variables S) where
  abbrev two_nones : Option Parameters
  two_nones = some (Parameters.sequence (Value.none ∷ Value.none ∷ []))

  abbrev one_int : ℤ → Option Parameters
  one_int z = some (Parameters.sequence (Value.int z ∷ []))

  abbrev half_bound : ℕ → Cursor → Cursor
  half_bound v c = record c { bind_variables = by_position (holds v ∷ null ∷ []) }

  after_first :
      (c : Cursor) (s : S) (z : ℤ)
      → bind_rows d 2 0 (two_nones ∷ one_int z ∷ []) (record c { bind_variables = unbound }, s)
        ≡ bind_rows d 2 1
            (one_int z ∷ [])
            (record c { bind_variables = by_position (null ∷ null ∷ []) }, s)
  unfolding bind_rows
  after_first c s z = refl
