-- ===== src/Objects/Reading/Iterating.antt =====
-- node/src/models/object.rs: what `ContentIter` yields, call by call.
use samizdat.Prelude.{
  ℕ, zero, suc, ◌<◌, ◌≡◌, refl, ap, ◌∙◌, Bool, true, false, List, [], ◌∷◌, ◌++◌, Option, none, some,
  arith, map, length,
}
use samizdat.Hash.{Hash}
use samizdat.Database.{Db}
use samizdat.Objects.Reading.{
  get_chunk, ContentIter, Yield, from_chunk, next_chunk, next, chunk_then, stream,
}

-- The iterator that `iter_content` makes for chunks.
abbrev pub new_iter : List Hash → ContentIter
new_iter keys = record { hashes = keys; current_chunk = none; is_error = false }

abbrev pub after_yield : (ContentIter → List (Option ℕ)) → Yield → List (Option ℕ)
after_yield rest (it, none) = []
after_yield rest (it, some item) = item ∷ rest it

-- What calls of `next` return up to the end, with `fuel` calls at most.
unfoldable pub items : ℕ → Db → ContentIter → List (Option ℕ)
items zero db it = []
items (suc fuel) db it = after_yield (λ later. items fuel db later) (next db it)

abbrev bytes_of : Option (List ℕ) → List (Option ℕ)
bytes_of none = []
bytes_of (some chunk) = map some chunk

-- What an iterator has yet to yield.
abbrev remaining_of : Bool → List (Option ℕ) → List (Option ℕ) → List (Option ℕ)
remaining_of true chunk behind = []
remaining_of false chunk behind = chunk ++ behind

abbrev remaining : Db → ContentIter → List (Option ℕ)
remaining db it = remaining_of it.is_error (bytes_of it.current_chunk) (stream db it.hashes)

abbrev yielded : Db → Yield → List (Option ℕ)
yielded db = after_yield (remaining db)

yielded-from_chunk :
    (db : Db) (current : Option (List ℕ)) (keys : List Hash) (again : Yield) (o : Option (List ℕ))
    → yielded db again ≡ stream db keys
    → yielded db (from_chunk current keys again o) ≡ chunk_then o (stream db keys)
yielded-from_chunk db current keys again none ih = refl
yielded-from_chunk db current keys again (some []) ih = ih
yielded-from_chunk db current keys again (some (byte ∷ chunk)) ih = refl

yielded-next_chunk :
    (db : Db) (current : Option (List ℕ)) (keys : List Hash)
    → yielded db (next_chunk db current keys) ≡ stream db keys
unfolding next_chunk stream
yielded-next_chunk db current [] = refl
yielded-next_chunk db current (key ∷ keys) =
    yielded-from_chunk db current keys (next_chunk db (some []) keys) (get_chunk db key)
      (yielded-next_chunk db (some []) keys)

abbrev iter_at : List Hash → Option (List ℕ) → Bool → ContentIter
iter_at keys current failed = record { hashes = keys; current_chunk = current; is_error = failed }

yielded-next_at :
    (db : Db) (keys : List Hash) (current : Option (List ℕ)) (failed : Bool)
    → yielded db (next db (iter_at keys current failed))
      ≡ remaining db (iter_at keys current failed)
unfolding next
yielded-next_at db keys current true = refl
yielded-next_at db keys none false = yielded-next_chunk db none keys
yielded-next_at db keys (some []) false = yielded-next_chunk db (some []) keys
yielded-next_at db keys (some (byte ∷ chunk)) false = refl

yielded-next : (db : Db) (it : ContentIter) → yielded db (next db it) ≡ remaining db it
yielded-next db it = yielded-next_at db it.hashes it.current_chunk it.is_error

items_step :
    (db : Db) (fuel : ℕ) (items_left : List (Option ℕ)) (y : Yield)
    → yielded db y ≡ items_left
    → ((it : ContentIter) → length (remaining db it) < fuel → items fuel db it ≡ remaining db it)
    → length items_left < suc fuel
    → after_yield (λ later. items fuel db later) y ≡ items_left
items_step db fuel items_left (it, none) e ih h = e
items_step db fuel items_left (it, some item) e ih h =
    ap (λ l. item ∷ l) (ih it (omega (arith, ap length e))) ∙ e

items-remaining :
    (fuel : ℕ) (db : Db) (it : ContentIter)
    → length (remaining db it) < fuel
    → items fuel db it ≡ remaining db it
unfolding items
items-remaining zero db it h = absurd (omega arith)
items-remaining (suc fuel) db it h =
    items_step db fuel (remaining db it) (next db it) (yielded-next db it)
      (λ later. items-remaining fuel db later) h

-- Calling `next` on a new iterator until it ends, which takes one call more than there are items,
-- returns the bytes of the chunks in order, empty chunks being passed over, up to the end or up to and
-- including one error for the first chunk that is missing.
pub items-new_iter :
    (db : Db) (keys : List Hash) (fuel : ℕ)
    → length (stream db keys) < fuel
    → items fuel db (new_iter keys) ≡ stream db keys
items-new_iter db keys fuel h = items-remaining fuel db (new_iter keys) h
