-- ===== src/Server/Service.antt =====
-- The check engine of pkg/engine on the memory store of pkg/storage/memory, as the tests of
-- pkg/engine/check_test.go and a Go program that embeds both set them up; cmd/server/main.go gives
-- the engine the store on Postgres, which is not modelled. The operations of one check take the same
-- clock reading.
pub mod Untouched
pub mod Isolation
pub mod Cycles
use zanguard.Prelude.{ℕ}
use zanguard.Server.Model.{Context}
use zanguard.Server.Engine.{Lookups}
use zanguard.Server.Store.{
  Store, check_direct, list_subjects, list_related_objects, get_object_attributes,
  get_subject_attributes,
}

-- The memory store's methods of `TupleStore`, as far as the engine calls them.
abbrev pub lookups : ℕ → Store → Context → Lookups
lookups now s ctx = record {
  check_direct = check_direct now s ctx;
  list_subjects = list_subjects now s ctx;
  list_related_objects = list_related_objects now s ctx;
  get_object_attributes = get_object_attributes now s ctx;
  get_subject_attributes = get_subject_attributes now s ctx;
}
