-- ===== src/Tests/References.antt =====
-- References into a small document.
use cpp_oasvalidator.Prelude.{codes, equal, List, Bytes, [], ◌∷◌, ◌↔◌, ◌≡◌, refl, arith}
use cpp_oasvalidator.Common.{validator_init, ok, throw}
use cpp_oasvalidator.Common.Fragments.{path_of, ArePathDirs}
use cpp_oasvalidator.Pipeline.References.{
  split, split_loop, resolve_loop, resolve_path, Leads, split-path_of, resolve_path_iff,
}
use cpp_oasvalidator.Json.{Json, text, object, nil, member}
use cpp_oasvalidator.Tests.Documents.{library}

abbrev keys : List Bytes
keys = codes "a" ∷ codes "bc" ∷ []

keys-ArePathDirs : ArePathDirs keys
keys-ArePathDirs = ((omega arith, tt), ((omega arith, (omega arith, tt)), (λ e. cc)))

split-path_of_example : split (path_of keys) ≡ keys
split-path_of_example = split-path_of keys keys-ArePathDirs

abbrev leaf : Json
leaf = text (codes "leaf")

abbrev tree : Json
tree = object (member (codes "a") (object (member (codes "bc") leaf nil)) nil)

resolve_path_iff_example :
    (resolve_path library tree (path_of keys) ≡ ok leaf) ↔ Leads library tree keys leaf
resolve_path_iff_example = resolve_path_iff library tree leaf keys keys-ArePathDirs

leaf_resolved : resolve_path library tree (codes "a/bc") ≡ ok leaf
unfolding split_loop resolve_loop equal
leaf_resolved = refl

-- The escape of a slash in a reference is left as it is, so no key with a slash is found.
slash_key_missing :
    resolve_path library (object (member (codes "/a") leaf nil)) (codes "~1a")
    ≡ throw (validator_init (codes "Invalid path or missing member:~1a"))
unfolding split_loop resolve_loop equal
slash_key_missing = refl
