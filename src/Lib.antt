-- ===== src/Lib.antt =====
-- ZanGuard, a multi-tenant authorization service: the TypeScript code of its admin console under
-- console/src, and the core of its server in Go under pkg. The console reads a tenant's schema,
-- tuples, attributes and changelog through an HTTP API, keeps them in a query cache, and changes
-- them. The server keeps them by tenant, and answers whether a subject has a permission on an
-- object: the engine walks the permissions of the compiled schema over the stored tuples.
--
-- Prelude, Js: Boolean tests and lists over the native numbers; JavaScript strings as lists of
--   UTF-16 code units, `Map`, `Set`, plain objects, JSON values and numbers.
-- Api: console/src/lib/api. Api/Types has the data, Api/Requests the request of each call
--   (`filter_params` is the search of `readTuples`), Api/Client the hook `beforeError`.
-- Hooks: console/src/lib/hooks. Hooks/Keys has the key factories, Hooks/Queries the queries,
--   Hooks/Invalidation what the mutations invalidate.
-- Layout: console/src/lib/stores/tenant-store.ts and console/src/components/layout.
--   `select_effect` is the effect of `TenantSelector`.
-- Schema: the four line scanners of a schema text: `parse_types` is `parseTypes` of
--   console/src/components/schema/schema-graph.tsx, `parse_schema_types` is `parseSchemaTypes` of
--   console/src/components/tuples/create-tuple-dialog.tsx, `parse_schema_type_infos` is
--   `parseSchemaTypeInfos` of console/src/components/schema/schema-evaluator.tsx, and
--   `parse_yaml_simple` is `parseYamlSimple` of console/src/components/schema/schema-viewer.tsx;
--   Schema/Agreement compares them. Schema/Evaluator is the component `SchemaEvaluator`,
--   Schema/Viewer the component `SchemaViewer`, Schema/Page the page
--   console/src/app/schema/page.tsx with its editor.
-- Graph: `buildGraph` of console/src/components/schema/schema-graph.tsx. The loops are functions on
--   `Build`, which holds the nodes, the added types and the relations of each edge; the invariant
--   is in Graph/Sound.
-- Tuples: console/src/components/tuples and console/src/app/tuples/page.tsx. Tuples/Table has the
--   delete dialog as a function on events, where a deletion starts and ends in two of them,
--   Tuples/CreateDialog the form and its selects.
-- Attributes: console/src/components/attributes/attribute-editor.tsx and
--   console/src/app/attributes/page.tsx. The two tabs are one model with their kind.
-- Explorer: console/src/components/explorer and console/src/app/explorer/page.tsx.
-- Changelog: console/src/components/changelog, console/src/app/changelog/page.tsx, and
--   Changelog/Store for `ReadChangelog` of pkg/storage/memory/store.go. Changelog/Server puts the
--   page and the reached memory stores together; `entry_sent` is the JSON of an entry.
-- Server: pkg. Server/Model is pkg/model with the errors of pkg/storage/interface.go, Server/Schema
--   pkg/schema/types.go, Server/Compile pkg/schema/compiler.go, Server/Validate
--   pkg/schema/validator.go, and Server/Tenants pkg/tenant.
-- Server/Engine: pkg/engine. `walk_permission` is `walkPermission`, with `walk_relation`,
--   `walk_arrow` and the loops below it; Server/Engine/Check has `Check` and the schemas of an
--   engine. `Holds` of Server/Engine/Holds says what a permission means, without an order, a depth
--   or visited keys. The store is the record `Lookups`.
-- Server/Store: pkg/storage/memory/store.go. The maps of `Store` are association lists by tenant;
--   Server/Store/Write has the writes of tuples, Server/Store/Tenants the other operations, and
--   `Reach` of Server/Store/Reach the stores that sequences of operations lead to; `Run` of
--   Server/Store/AppendOnly are the sequences in which a tenant is not purged.
-- Server/Service: the engine on the memory store, as a Go program that embeds both has it (and
--   pkg/engine/check_test.go); `lookups` fills the interface. cmd/server/main.go runs the engine on
--   Postgres.
-- Tests: the definitions at sample data.
--
-- State is passed explicitly: a component's state is a record, a handler a function on it, and a
-- handler that awaits a mutation takes the reply as an argument, or is split at its `await`. A view
-- is a record or a data type of what is shown, without styling. `use_state` of Ui says what a
-- component's state is over a render of its parent. Loops are recursion on lists, on numbers, or on
-- the tree. Two count rounds: `pages` of Changelog/Server, whose theorem gives a number of rounds
-- that is enough, and `walk_permission`, whose levels are those that the code counts:
-- `MaxCheckDepth + 1` less the depth, with the failure that the code has when none is left.
--
-- Parameters stand for `JSON.parse` and `JSON.stringify`, for the rule by which `invalidateQueries`
-- of react-query finds the cached keys, for the expressions of expr-lang (`ExprLang`: which texts
-- compile, and what a program yields), for `toLocaleDateString`, and for readings of the clock. A
-- network call is the request that is sent. Not modelled: the layout by dagre, the drawing by React
-- Flow, the editor CodeMirror, the components under console/src/components/ui, styling, the shell
-- of the pages; of the server the HTTP handlers, the store on Postgres, the decoding of YAML, and
-- the operations of the memory store that only copy data out (`ListTenants`, the lists of
-- attributes, `ExportTenantSnapshot`). A lock makes an operation of the memory store one step.
pub mod Prelude
pub mod Js
pub mod Api
pub mod Ui
pub mod Hooks
pub mod Layout
pub mod Schema
pub mod Graph
pub mod Tuples
pub mod Attributes
pub mod Explorer
pub mod Changelog
pub mod Server
pub mod Tests
