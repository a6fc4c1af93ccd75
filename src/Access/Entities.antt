-- ===== src/Access/Entities.antt =====
-- Which entity a path names: `from_path` of node/src/access.rs.
use samizdat.Prelude.{append_assoc, ◌≡◌, refl, ap, ◌∙◌, false, List, [], ◌∷◌, ◌++◌, some}
use samizdat.Text.{Str, slash, split, is_empty}
use samizdat.Text.Split.{IsPiece, split-append, split-piece}
use samizdat.Access.{Entity, fmt, from_path}

-- The pieces of an entity's path, and of a path below it.
from_path_pieces :
    (path ty id : Str) (pieces : List Str)
    → split path ≡ [] ∷ ty ∷ id ∷ pieces
    → from_path path ≡ some (record { type_ = ty; identifier = id })
unfolding from_path
from_path_pieces path ty id pieces h = rw h refl

from_path_bare :
    (path ty id : Str) (pieces : List Str)
    → is_empty ty ≡ false
    → split path ≡ ty ∷ id ∷ pieces
    → from_path path ≡ some (record { type_ = ty; identifier = id })
unfolding from_path
from_path_bare path ty id pieces full h = rw (h, full) refl

split-slash : (s : Str) → split (slash ∷ s) ≡ [] ∷ split s
unfolding split
split-slash s = refl

split_below :
    (e : Entity) (rest : Str)
    → IsPiece e.type_
    → IsPiece e.identifier
    → split (e.type_ ++ slash ∷ (e.identifier ++ slash ∷ rest))
      ≡ e.type_ ∷ e.identifier ∷ split rest
split_below e rest ht hi =
    split-append e.type_ (e.identifier ++ slash ∷ rest) ht
    ∙ ap (λ l. e.type_ ∷ l) (split-append e.identifier rest hi)

-- What an entity prints is read back as the same entity, and so is every path below it. The entity's
-- parts hold no slash.
pub from_path-fmt :
    (e : Entity) (rest : Str)
    → IsPiece e.type_
    → IsPiece e.identifier
    → (from_path (fmt e) ≡ some e) × (from_path (fmt e ++ slash ∷ rest) ≡ some e)
from_path-fmt e rest ht hi =
    let whole =
      split-append e.type_ e.identifier ht ∙ ap (λ l. e.type_ ∷ l) (split-piece e.identifier hi) in
    let assoc = append_assoc e.type_ (slash ∷ e.identifier) (slash ∷ rest) in
    (
      from_path_pieces _ e.type_ e.identifier [] (split-slash _ ∙ ap (λ l. [] ∷ l) whole),
      from_path_pieces _ e.type_ e.identifier (split rest)
          (split-slash _ ∙ ap (λ l. [] ∷ l) (ap split assoc ∙ split_below e rest ht hi)),
    )

-- A path with no slash in front names the entity of its first two pieces, if the first is not empty.
pub from_path_relative :
    (e : Entity) (rest : Str)
    → IsPiece e.type_
    → IsPiece e.identifier
    → is_empty e.type_ ≡ false
    → from_path (e.type_ ++ slash ∷ (e.identifier ++ slash ∷ rest)) ≡ some e
from_path_relative e rest ht hi full =
    from_path_bare _ e.type_ e.identifier (split rest) full (split_below e rest ht hi)
