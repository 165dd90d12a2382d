-- ===== src/Cursor/Preparing.antt =====
-- Preparing a statement, once its text is had, leaves the bind variables alone.
use python_cx_oracle.Prelude.{ℕ, refl, Bool, ◌==◌, Option, none, some, if◌then◌else◌}
use python_cx_oracle.Action.{pure, lift, gets, ◌>>=◌, ◌>>◌, foreign, update}
use python_cx_oracle.Transform.{Runtime, Buffer, buffer_from_object}
use python_cx_oracle.Cursor.{
  Binds, Cursor, Driver, Variables, Executor, M, prepare_text, StmtInfo, value_of,
}
use python_cx_oracle.Cursor.Keeps.{Keeps, Keeps->>=, Keeps->>, Keeps-if}

-- The bind variables, and whether they come from setinputsizes.
abbrev pub binding : Cursor → Binds × Bool
binding c = (c.bind_variables, c.set_input_sizes)

module _ (rt : Runtime) {S : Type 0} (d : Driver S) (vars : Variables S) (x : Executor S) where
  abbrev row_factory_cleared : M d (Unit {0})
  row_factory_cleared = update (λ t. record t { row_factory = none })

  abbrev fetch_sizes_set : Cursor → ℕ → StmtInfo → M d (Unit {0})
  fetch_sizes_set c h info = do
    if info.is_select then foreign (d.set_fetch_array_size (some h) c.array_size) else pure tt
    if c.prefetch_rows == x.default_prefetch_rows
        then pure tt
        else foreign (x.set_prefetch_rows (some h) c.prefetch_rows)
    row_factory_cleared

  fetch_sizes_set-Keeps :
      (c : Cursor) (h : ℕ) (info : StmtInfo) → Keeps d binding (fetch_sizes_set c h info)
  fetch_sizes_set-Keeps c h info =
      Keeps->> d binding
        (if info.is_select then foreign (d.set_fetch_array_size (some h) c.array_size) else pure tt)
        (default_or_set >> row_factory_cleared)
        (Keeps-if d binding info.is_select (foreign (d.set_fetch_array_size (some h) c.array_size))
          (pure tt) (λ w. refl) (λ w. refl))
        (Keeps->> d binding default_or_set row_factory_cleared
          (Keeps-if d binding (c.prefetch_rows == x.default_prefetch_rows) (pure tt)
            (foreign (x.set_prefetch_rows (some h) c.prefetch_rows)) (λ w. refl) (λ w. refl))
          (λ w. refl))
    where
      default_or_set : M d (Unit {0})
      default_or_set =
          if c.prefetch_rows == x.default_prefetch_rows
          then pure tt
          else foreign (x.set_prefetch_rows (some h) c.prefetch_rows)

  abbrev with_info : Cursor → ℕ → StmtInfo → M d (Unit {0})
  with_info c h info = update (λ t. record t { stmt_info = info }) >> fetch_sizes_set c h info

  abbrev with_handle : Cursor → ℕ → M d (Unit {0})
  with_handle c h =
      update (λ t. record t { handle = some h })
      >> (foreign (x.get_info (some h)) >>= with_info c h)

  with_handle-Keeps : (c : Cursor) (h : ℕ) → Keeps d binding (with_handle c h)
  with_handle-Keeps c h =
      Keeps->> d binding (update (λ t. record t { handle = some h }))
        (foreign (x.get_info (some h)) >>= with_info c h) (λ w. refl)
        (Keeps->>= d binding (foreign (x.get_info (some h))) (with_info c h) (λ w. refl)
          (λ info.
            Keeps->> d binding (update (λ t. record t { stmt_info = info }))
              (fetch_sizes_set c h info) (λ w. refl) (fetch_sizes_set-Keeps c h info)))

  abbrev with_text : Buffer → Buffer → Cursor → M d (Unit {0})
  with_text text tag_text c =
      foreign (elim c.handle [ none ↦ pure tt | some h ↦ x.release h ])
      >> (foreign (x.prepare_stmt c.is_scrollable text tag_text) >>= with_handle c)

  with_text-Keeps :
      (text tag_text : Buffer) (c : Cursor) → Keeps d binding (with_text text tag_text c)
  with_text-Keeps text tag_text c =
      Keeps->> d binding (foreign (elim c.handle [ none ↦ pure tt | some h ↦ x.release h ]))
        (foreign (x.prepare_stmt c.is_scrollable text tag_text) >>= with_handle c) (λ w. refl)
        (Keeps->>= d binding (foreign (x.prepare_stmt c.is_scrollable text tag_text))
          (with_handle c) (λ w. refl) (with_handle-Keeps c))

  pub prepare_text-Keeps :
      (tag : Option ℕ) (text : Buffer) → Keeps d binding (prepare_text rt d vars x tag text)
  prepare_text-Keeps tag text =
      Keeps->>= d binding (lift (buffer_from_object rt (value_of rt d vars x tag) x.encoding))
        (λ tag_text. gets (λ s. s.0) >>= with_text text tag_text) (λ w. refl)
        (λ tag_text.
          Keeps->>= d binding (gets (λ s. s.0)) (with_text text tag_text) (λ w. refl)
            (with_text-Keeps text tag_text))
