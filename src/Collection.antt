-- ===== src/Collection.antt =====
-- Item paths, the keys of a collection's inventory: node/src/models/collection.rs.
pub mod Paths
pub mod Items
pub mod Tables
use samizdat.Prelude.{◌||◌, if◌then◌else◌}
use samizdat.Text.{
  Str, split, join, filter_nonempty, starts_with_slash, ends_with_slash, contains_double_slash,
}

-- The function transforming an arbitrary string into its canonical path form.
unfoldable pub normalize : Str → Str
normalize name =
    if ends_with_slash name || (starts_with_slash name || contains_double_slash name)
    then join (filter_nonempty (split name))
    else name
