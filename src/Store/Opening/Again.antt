-- ===== src/Store/Opening/Again.antt =====
-- A migration is applied once: after a start that migrated the database, a later one leaves it alone.
use meta_mcp.Prelude.{◌≡◌, String, List}
use meta_mcp.Exec.Keeps.{Keeps}
use meta_mcp.Store.Opening.{Schema}

-- The schema has these names, and these texts were executed.
record Stays (names bodies : List String) (s : Schema) : Type 0 where
  same_names : s.names ≡ names
  same_bodies : s.bodies ≡ bodies
