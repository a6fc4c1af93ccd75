-- ===== src/Examples/Editions.antt =====
-- Editions that are signed, taken and refused.
use samizdat.Prelude.{ℕ, refl, false, List, [], ◌∷◌, ◌++◌, Option, none, some}
use samizdat.Hash.{hash_eq}
use samizdat.Codec.{ReadsBack}
use samizdat.Series.{Keypair, Signatures, Edition, SeriesOwner, SeriesCodecs}
use samizdat.Examples.{key_of}
use samizdat.Examples.Marks.{simple}

-- A signature is the public key and the text.
abbrev pub openly : Signatures
openly = record {
  sign_bytes = λ keypair bytes. keypair.public ++ bytes;
  verify_bytes = λ public bytes signature. hash_eq signature (public ++ bytes);
}

abbrev keypair : Keypair
keypair = record { public = 3 ∷ 4 ∷ []; secret = 5 ∷ [] }

abbrev pub owner : SeriesOwner
owner = record { name = 7 ∷ []; keypair = keypair; default_ttl = 60; is_draft = false }

abbrev pub edition_at : ℕ → ℕ → Edition
edition_at time ttl = record {
  signed = record {
    content = record { collection = key_of 1; timestamp = time; ttl = ttl };
    signature = 9 ∷ time ∷ ttl ∷ [];
  };
  public_key = 9 ∷ [];
  is_draft = false;
}

abbrev read_edition : List ℕ → Option Edition
read_edition (time ∷ ttl ∷ []) = some (edition_at time ttl)
read_edition _ = none

abbrev read_time : List ℕ → Option ℕ
read_time (time ∷ []) = some time
read_time _ = none

abbrev pub codecs : SeriesCodecs
codecs = record {
  contents = record { serialize = λ c. c.timestamp ∷ c.ttl ∷ []; deserialize = λ bytes. none };
  edition_codec = record {
    serialize = λ e. e.signed.content.timestamp ∷ e.signed.content.ttl ∷ [];
    deserialize = read_edition;
  };
  refs = record {
    serialize = λ r. r.public_key;
    deserialize = λ bytes. some (record { public_key = bytes });
  };
  owners = record { serialize = λ o. o.name; deserialize = λ bytes. none };
  times = record { serialize = λ time. time ∷ []; deserialize = read_time };
  bookmark_codec = simple;
}

times-ReadsBack : ReadsBack codecs.times
times-ReadsBack = record { round_trip = λ time. refl }
