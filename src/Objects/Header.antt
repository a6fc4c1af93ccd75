-- ===== src/Objects/Header.antt =====
-- node/src/models/object.rs: `ObjectHeader`, which is written before the content of an object with its
-- null bytes escaped. A source of bytes is the list of what its iterator yields: `none` is an error.
pub mod Escaping
use samizdat.Prelude.{
  ℕ, zero, suc, ◌+◌, ◌==◌, Bool, true, false, not, ◌&&◌, List, [], ◌∷◌, ◌++◌, Option, none, some,
  ◌>>=◌, if◌then◌else◌,
}
use samizdat.Text.{Str}
use samizdat.Codec.{Codec}

-- `CHUNK_SIZE`
abbrev pub chunk_size : ℕ
chunk_size = 256000

pub record ObjectHeader : Type 0 where
  pub content_type : Str
  pub is_draft : Bool
  pub nonce : ℕ

abbrev pub new_header : Str → Bool → ObjectHeader
new_header content_type is_draft = record {
  content_type = content_type;
  is_draft = is_draft;
  nonce = 0;
}

-- With the random number that is the new nonce.
abbrev pub reissue_header : ObjectHeader → ℕ → ObjectHeader
reissue_header h random = record h { nonce = random }

-- The escaping loop of `buffer`.
unfoldable pub escape : List ℕ → List ℕ
escape [] = []
escape (byte ∷ bytes) = let rest = escape bytes in if byte == 0 then 0 ∷ 0 ∷ rest else byte ∷ rest

abbrev pub buffer : Codec ObjectHeader → ObjectHeader → List ℕ
buffer codec h = escape (codec.serialize h) ++ 0 ∷ 1 ∷ []

-- What the reading loop leaves: how many bytes it took, those that it kept, and the source behind.
pub record HeaderRead : Type 0 where
  pub read : ℕ
  pub kept : List ℕ
  pub rest : List (Option ℕ)

-- One more byte was taken, and perhaps kept.
abbrev pub count_byte : List ℕ → HeaderRead → HeaderRead
count_byte kept r = record { read = 1 + r.read; kept = kept ++ r.kept; rest = r.rest }

-- The `match` on (is_maybe_quoted, curr_is_null), before the source `rest`: `next` is what the next
-- rounds leave, and the end is a `break`.
abbrev pub read_byte : Bool → Bool → ℕ → List (Option ℕ) → Option HeaderRead → Option HeaderRead
read_byte true true byte rest next = do r ← next; some (count_byte (0 ∷ []) r)
read_byte true false byte rest next = some (record { read = 1; kept = []; rest = rest })
read_byte false false byte rest next = do r ← next; some (count_byte (byte ∷ []) r)
read_byte false true byte rest next = do r ← next; some (count_byte [] r)

-- The loop of `read`, over at most `limit` bytes; `none` is the error of the source.
unfoldable pub read_loop : ℕ → Bool → List (Option ℕ) → Option HeaderRead
read_loop zero is_maybe_quoted source = some (record { read = 0; kept = []; rest = source })
read_loop (suc limit) is_maybe_quoted [] = some (record { read = 0; kept = []; rest = [] })
read_loop (suc limit) is_maybe_quoted (none ∷ source) = none
read_loop (suc limit) is_maybe_quoted (some byte ∷ source) =
    let next = read_loop limit (not is_maybe_quoted && byte == 0) source in
    read_byte is_maybe_quoted (byte == 0) byte source next

-- `ObjectHeader::read`, with the source that it leaves.
unfoldable pub read_header :
    Codec ObjectHeader → List (Option ℕ) → Option (ℕ × ObjectHeader × List (Option ℕ))
read_header codec source = do
  r ← read_loop chunk_size false source
  header ← codec.deserialize r.kept
  some (r.read, header, r.rest)
