-- ===== src/Lib.antt =====
-- cpp-oasvalidator validates HTTP requests against an OpenAPI 3.x document. Routes are looked up in
-- a table of literal paths and then in a trie of path templates; the trie hands the ranges of the
-- path parameters on, and a deserializer for the parameter's style turns the text of a parameter
-- into JSON text, which a JSON schema validator checks.
--
-- The parts, and the modules that model them (paths from the repository's root):
-- - Common: include/utils/common.hpp (`ValidationError`, `ParamStyle`, `PrimitiveType`, `Seek`,
--   `EscapeSlash`, `JoinReference`) and results that may throw. Common.Fragments is the loop over
--   the fragments of a path that `PathTrie::Insert` and both `PathTrie::Search` share.
-- - Trie: include/utils/path_trie.hpp and src/utils/path_trie.cpp. `Insert` is `insert`, the two
--   `Search` are `search_path` and `search`. Below it, Shape has the invariant of a trie, Round one
--   round of `Search`, and Total, Ranges, Unambiguous and Finds what `Search` does.
--   Memory has the copy constructor, `operator=`, `CopyNode`, `DeleteNode` and the destructor; Stands,
--   Writes, Packed, Copy and Delete are about them.
-- - Deserializer: include/deserializers/base_deserializer.hpp and its table; below it Primitive,
--   Array, Object and Content are the four classes of include/deserializers and
--   src/deserializers, `deserialize` in each is `Deserialize`. Suffix, Ends, Prologue, Prefix and
--   Decode are about the readers that the four share.
-- - Validators: include/validators and src/validators. The file itself has `BaseValidator`,
--   `MethodValidator` and `JsonValidator`; Param has `ParamValidator`, Param.Style the tables of the
--   styles and Param.Build `GetKTMap`, `GetDeserializer` and `GetParamInfo`; Store is
--   `ValidatorsStore`, and Store.Query its pass over the query. Param.Arrays, Param.Objects and
--   Param.Primitives compare the deserializers that `GetDeserializer` makes with the tables of OpenAPI;
--   Store.Indices, Store.Codes and Store.QueryCodes are about the store. Messages is the rest of
--   src/validators/json_validator.cpp: `CreateErrorMessages`, `HandleError` and `GetString`.
-- - Json: the values of rapidjson's documents as trees, and the calls that the library makes of them.
-- - Pipeline: include/oas_validator_imp.hpp and src/oas_validator_imp.cpp. The file itself has both
--   `GetValidators`, Requests the entry points, and Spec the constructor with `ProcessPath`,
--   `ProcessMethod`, `ProcessRequestBody` and `ProcessParameters`. Keys, Tables, Answers,
--   Agreement, Stages, Templates and MethodNames are about them. References has `Split` and
--   `ResolvePath`, Resolve has `ResolveReferences`, `ParseSpecs` and the constructor with them.
-- - Api: include/oas_validator.hpp and src/oas_validator.cpp, the class `OASValidator`, and the
--   destructor of `OASValidatorImp`. Calls has the methods that pass a request on; Stores, Ownership,
--   Fresh and Copies are about who owns the stores, Serves is about a validator from its text to its
--   answers.
-- - Prelude: byte strings, tests on numbers, lists.
-- - Tests: runs on concrete inputs.
--
-- Text is a list of bytes. A pointer into a text is what stands from it to `end`, with what stands
-- behind `end` where the code reads that; `Deserializer.past_end` is a cursor behind `end`. The
-- order in which an `std::unordered_map` is iterated is a parameter, `HashOrder`: the standard says
-- only that `begin()` stands at one of the keys. For `Insert` and `Search` the children of a trie node
-- are values: each has one parent, so no write is seen through another pointer. In Trie.Memory they
-- are addresses, and `Trie.Stands.Stands` says which tree stands at an address; the fuel of
-- `copy_node` and `delete_node` is for their nested calls, and the number of nodes is enough.
--
-- Bounds and fuel: the loop over fragments has the length of the path as fuel, and
-- Common.Fragments.fragments-step is its equation without fuel; the loops of arrays and objects
-- have the length of the text. `int fragment_index` is a number without bound. `isdigit` takes a
-- byte of 128 or more for no digit. `resolve_references` has fuel for its nested calls and the runs of
-- its loop; how deep they nest is the number that `Resolve.Expands.Expands` carries.
--
-- rapidjson is the record `Validators.Rapidjson`: the values of the document, the parser and the
-- schema validator, and the text of its errors. `Json.Library` fills it with trees and with the text
-- that `create_error_messages` makes; the parser, `Accept`, `GetError()` and `GetValidateError_En`
-- are left as parameters there. A number is the text that `std::to_string` prints of it. What
-- lies behind an undefined dereference of an iterator at its end is the result `none`; the byte in
-- front of the query, which the code reads where a name stands at its start, is a parameter.
--
-- A value that `ResolveReferences` rewrites in place is a tree together with the document around it,
-- a function of the value; `copied` is the run of the loop that breaks off. The file system is a
-- function from names to contents. `Exception.undefined_behaviour` stands for what the language or
-- rapidjson leaves undefined. `Common.requires` stands in front of the reads that the code makes of a
-- document without a test, and comes to it where the value is missing or of another kind.
--
-- An `OASValidator` is the address of an implementation in a memory; `none` is a `delete` or a read
-- through a pointer to nothing that is there, and a call with a store in its tables that is gone. The build without LUA_OAS_VALIDATOR is modelled, whose
-- destructor deletes the stores. What a store owns, and the stores that a constructor which throws
-- leaves behind, are not in that memory.
--
-- Not modelled: rapidjson (third-party).
pub mod Prelude
pub mod Common
pub mod Trie
pub mod Deserializer
pub mod Validators
pub mod Json
pub mod Pipeline
pub mod Api
pub mod Tests
