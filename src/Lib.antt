-- ===== src/Lib.antt =====
-- Pebble Bitmap Store: blockchain entities in a key-value database, found through bitmap indexes
-- by a query language.
--
-- The program parses a query (query/), normalises it to a disjunction of conjunctions of
-- comparisons, and evaluates that over an index that holds, for each attribute name and value, the
-- set of the entities that have it (pebblestore/). The files:
--
-- - Prelude: lists, tests, byte strings, and Go's errors and panics as a result type.
-- - Query.Language: query/language.go and query/types.go, the syntax tree. Pointers of which the
--   grammar sets exactly one are constructors; a struct with one field stands as that field.
-- - Query.Invert, Query.Ast, Query.Normalize: query/normalize.go, method by method:
--   `EqualExpr.invert` is `invert_equal_expr`, `AndExpression.Normalize` is `normalize_and`, and so
--   on. A nil dereference and an explicit `panic` are `err panic`.
-- - Query.Depth: the fuel of the normalisation. `Paren.Normalize` recurs on an inverted tree, which
--   is no part of its own; the depth counts the parentheses that it meets, those that inverting
--   adds included, and is enough for every query.
-- - Query.Meaning: two readings of a syntax tree that do not go through the normal form, over any
--   valuation of its leaves.
-- - Encoding.Slices, Encoding.Integers: Go's slice expressions and encoding/binary. A slice bound
--   past the length panics here, where Go lets it reach the capacity.
-- - Encoding.Keys, Encoding.Ranges: pebblestore/encoding.go, the layout of the keys, the decoders
--   with their wrapping uint16 offsets, and the upper bound of a prefix scan.
-- - Packages: the interfaces of pebble, roaring64 and encoding/json, with the laws that the store
--   relies on, and in Packages.InMemory an instance of the first two for the tests. Every call of
--   pebble may return an error; the laws speak of calls that return none.
-- - Index.Bitmaps: pebblestore/bitmap_ops.go and store/bitmap.go.
-- - Index.Values: pebblestore/value_queries.go, each `GetMatching...` as `matching_...`.
-- - Index.Attributes: what it means that a database indexes the attributes of entities.
-- - AllCurrent: pebblestore/temporal_queries.go.
-- - Cache: pebblestore/bitmap_cache.go. Go's maps are association lists, which Flush goes through in
--   their order.
-- - Store: pebblestore/pebblestore.go, the counters and what opening a database does to them.
--   `nextIDVal` is a number that the operations pass on.
-- - Payloads.Record, Payloads.Operations: pebblestore/payload_ops.go. The batch and the reader are
--   the same indexed batch. Payloads.Consistent says what holds of a store between operations.
-- - Maps: Go maps and store/string_attributes.go and store/numeric_attributes.go. A map is the list
--   of its entries in the order of their keys, in which encoding/json writes it. The order in which
--   Go ranges over a map is a parameter.
-- - Events: pebblestore/follow_events.go. Events.Operations has one function for each case of the
--   switch and Events.Blocks the loops over operations, blocks and batches. Events.Exec is what they
--   run in: the identifier counter, which a failed call keeps, and an error. Events.Tracks is the
--   invariant between two operations: the rows in the batch, and the index in the cache and the
--   batch. Events.Contents says, without a database, what each operation makes of the entities, and
--   Events.Given which attributes Create and Update give one.
-- - Evaluate: pebblestore/evaluate.go. `Option Bitmap` is a pointer that may be nil. Evaluate.Asks
--   says what a query asks of one entity, with the meaning of each operator written out.
-- - QueryRpc: pebblestore/query_rpc.go. QueryRpc.Pages is the loop that fills a page, with the
--   number of identifiers as its fuel: each round takes one at least. QueryRpc.Query is
--   `QueryEntities`, QueryRpc.Paging a client that follows the cursors.
-- - Pusher: pusher/push_iterator.go, the step of the pushing goroutine and the loop together. A run
--   of one step more than the calls of the pushing goroutine is enough.
--
-- Strings and byte slices are lists of numbers; a uint64 is a number whose range is a hypothesis
-- where it matters. `strings.ToLower`, `path.Match` (its `matched` result) and `sort.Slice` are
-- parameters. Contexts, logging and metrics are not modelled, nor are the grammar's parser
-- (participle builds it from the struct tags) and the storage engine. Of the event processing the
-- counts for the metrics are left out. The command-line tools (cmd/) are outside the model.
pub mod Prelude
pub mod Query
pub mod QueryRpc
pub mod Encoding
pub mod Packages
pub mod Index
pub mod AllCurrent
pub mod Maps
pub mod Cache
pub mod Store
pub mod Payloads
pub mod Evaluate
pub mod Events
pub mod Pusher
