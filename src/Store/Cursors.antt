-- ===== src/Store/Cursors.antt =====
-- The projection cursors of src/coordinator/store.ts.
use smolpaws.Base.{
  ℕ, String, Bool, true, false, Option, none, some, List, ◌∷◌, any_where, find_first, update_where,
  ◌==◌, if◌then◌else◌,
}
use smolpaws.Store.{Store, CursorRow}

abbrev pub is_cursor : String → CursorRow → Bool
is_cursor id c = c.conversation_id == id

unfoldable pub get_projection_cursor : Store → String → Option String
unfolding find_first
get_projection_cursor st id = elim (find_first (is_cursor id) st.cursors) [
  | none ↦ none
  | some c ↦ c.next_page_id
]

-- INSERT ... ON CONFLICT(conversation_id) DO UPDATE.
upsert : CursorRow → (CursorRow → CursorRow) → List CursorRow → List CursorRow
unfolding any_where
upsert row f cursors =
    if any_where (is_cursor row.conversation_id) cursors
    then update_where (is_cursor row.conversation_id) f cursors
    else row ∷ cursors

unfoldable pub set_projection_cursor : String → Option String → ℕ → Store → Store
unfolding upsert
set_projection_cursor id page now st = record st {
  cursors =
      upsert
        (record { conversation_id = id; next_page_id = page; updated_at = now; parked_at = none })
        (λ c. record c { next_page_id = page; updated_at = now }) st.cursors;
}

unfoldable pub is_projection_cursor_parked : Store → String → Bool
unfolding find_first
is_projection_cursor_parked st id = elim (find_first (is_cursor id) st.cursors) [
  | none ↦ false
  | some c ↦ elim c.parked_at [ none ↦ false | some _ ↦ true ]
]

unfoldable pub park_projection_cursor : String → ℕ → Store → Store
unfolding upsert
park_projection_cursor id now st = record st {
  cursors =
      upsert
        (record {
          conversation_id = id;
          next_page_id = none;
          updated_at = now;
          parked_at = some now;
        })
        (λ c. record c { parked_at = some now; updated_at = now }) st.cursors;
}

unfoldable pub unpark_projection_cursor : String → ℕ → Store → Store
unpark_projection_cursor id now st = record st {
  cursors =
      update_where (is_cursor id) (λ c. record c { parked_at = none; updated_at = now }) st.cursors;
}
