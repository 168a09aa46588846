-- ===== src/Query/Meaning/Whole.antt =====
-- The readings of a whole query, `$all` and `*` included.
use pebble_bitmap_store_note.Prelude.{Bool, true}
use pebble_bitmap_store_note.Query.Language.{EqualExpr, TopLevel, everything, filtered}
use pebble_bitmap_store_note.Query.Meaning.Classical.{means}
use pebble_bitmap_store_note.Query.Meaning.Polarity.{reads}

abbrev pub query_reads : (EqualExpr → Bool) → TopLevel → Bool
query_reads u everything = true
query_reads u (filtered e) = reads u true e

abbrev pub query_means : (EqualExpr → Bool) → TopLevel → Bool
query_means u everything = true
query_means u (filtered e) = means u e
