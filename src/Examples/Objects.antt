-- ===== src/Examples/Objects.antt =====
-- Formats that are read back, and objects that are built, imported, read and dropped.
mod Runs
use samizdat.Prelude.{
  ℕ, zero, suc, ◌+◌, ◌<◌, ◌≡◌, refl, ap, ◌∙◌, Bool, true, false, List, [], ◌∷◌, ◌++◌, Option, none,
  some, ◌>>=◌, arith, length,
}
use samizdat.Hash.{Hash}
use samizdat.Codec.{Codec, ReadsBack}
use samizdat.Examples.Marks.{simple}
use samizdat.Database.{Db}
use samizdat.Objects.Header.{ObjectHeader}
use samizdat.Objects.Building.{ObjectMetadata, ObjectStatistics, ObjectCodecs, Clock}

-- Lists of numbers, each of them ended by a zero.
abbrev terminated : List ℕ → List ℕ → List ℕ
terminated [] rest = 0 ∷ rest
terminated (x ∷ xs) rest = suc x ∷ terminated xs rest

abbrev pub encode_lists : List (List ℕ) → List ℕ
encode_lists [] = []
encode_lists (xs ∷ lists) = terminated xs (encode_lists lists)

abbrev push_number : ℕ → List (List ℕ) → List (List ℕ)
push_number n [] = (n ∷ []) ∷ []
push_number n (xs ∷ lists) = (n ∷ xs) ∷ lists

abbrev pub decode_lists : List ℕ → List (List ℕ)
decode_lists [] = []
decode_lists (zero ∷ bytes) = [] ∷ decode_lists bytes
decode_lists (suc n ∷ bytes) = push_number n (decode_lists bytes)

decode_lists-terminated :
    (xs rest : List ℕ) → decode_lists (terminated xs rest) ≡ xs ∷ decode_lists rest
decode_lists-terminated [] rest = refl
decode_lists-terminated (x ∷ xs) rest = ap (push_number x) (decode_lists-terminated xs rest)

pub decode_lists-encode_lists : (lists : List (List ℕ)) → decode_lists (encode_lists lists) ≡ lists
decode_lists-encode_lists [] = refl
decode_lists-encode_lists (xs ∷ lists) =
    decode_lists-terminated xs (encode_lists lists)
    ∙ ap (λ l. xs ∷ l) (decode_lists-encode_lists lists)

abbrev flag : Bool → ℕ
flag true = 1
flag false = 0

abbrev read_flag : ℕ → Bool
read_flag zero = false
read_flag (suc n) = true

read_flag-flag : (b : Bool) → read_flag (flag b) ≡ b
read_flag-flag true = refl
read_flag-flag false = refl

abbrev read_header_bytes : List ℕ → Option ObjectHeader
read_header_bytes (nonce ∷ draft ∷ content_type) =
    some (record { content_type = content_type; is_draft = read_flag draft; nonce = nonce })
read_header_bytes _ = none

abbrev pub header_codec : Codec ObjectHeader
header_codec = record {
  serialize = λ h. h.nonce ∷ flag h.is_draft ∷ h.content_type;
  deserialize = read_header_bytes;
}

pub header_codec-ReadsBack : ReadsBack header_codec
header_codec-ReadsBack = record {
  round_trip = λ h. ap (λ b. some (record h { is_draft = b })) (read_flag-flag h.is_draft);
}

abbrev read_metadata : List (List ℕ) → Option ObjectMetadata
read_metadata (header ∷ (content_size ∷ received_at ∷ []) ∷ hashes) = do
  h ← read_header_bytes header
  some (record {
    hashes = hashes;
    header = h;
    content_size = content_size;
    received_at = received_at;
  })
read_metadata _ = none

abbrev pub metadata_codec : Codec ObjectMetadata
metadata_codec = record {
  serialize = λ m.
      encode_lists
        (header_codec.serialize m.header ∷ (m.content_size ∷ m.received_at ∷ []) ∷ m.hashes);
  deserialize = λ bytes. read_metadata (decode_lists bytes);
}

pub metadata_codec-ReadsBack : ReadsBack metadata_codec
metadata_codec-ReadsBack = record {
  round_trip = λ m.
      ap read_metadata (
        decode_lists-encode_lists
          (header_codec.serialize m.header ∷ (m.content_size ∷ m.received_at ∷ []) ∷ m.hashes))
      ∙ ap (λ b. some (record m { header = record m.header { is_draft = b } }))
          (read_flag-flag m.header.is_draft);
}

abbrev read_statistics : List ℕ → Option ObjectStatistics
read_statistics (size ∷ created ∷ last ∷ touches ∷ []) =
    some (record { size = size; created_at = created; last_touched_at = last; touches = touches })
read_statistics _ = none

abbrev pub statistics_codec : Codec ObjectStatistics
statistics_codec = record {
  serialize = λ s. s.size ∷ s.created_at ∷ s.last_touched_at ∷ s.touches ∷ [];
  deserialize = read_statistics;
}

pub statistics_codec-ReadsBack : ReadsBack statistics_codec
statistics_codec-ReadsBack = record { round_trip = λ s. refl }

abbrev pub formats : ObjectCodecs
formats = record {
  headers = header_codec;
  metadata = metadata_codec;
  statistics = statistics_codec;
  bookmarks = simple;
}

abbrev pub empty_db : Db
empty_db name key = none

abbrev pub plain : ObjectHeader
plain = record { content_type = 9 ∷ []; is_draft = false; nonce = 0 }

abbrev pub noon : Clock
noon = record { received_at = 12; created_at = 12; touched_at = 12 }
