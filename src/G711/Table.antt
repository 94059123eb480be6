-- ===== src/G711/Table.antt =====
-- A Go array of bytes or samples (the lookup tables of mpf/codecs/g711/alaw.go and ulaw.go) as the
-- rows of its literal, and indexing into it.
use go_mrcp.Prelude.{ℕ, ◌/◌, ◌%◌, List, [], get_or}

abbrev pub Table : Type 0
Table = List (List ℕ)

-- The entry at index `i` of an array whose literal has `width` entries to a row.
unfoldable pub at : Table → ℕ → ℕ → ℕ
at t width i = get_or (get_or t (i / width) []) (i % width) 0
