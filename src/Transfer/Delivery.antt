-- ===== src/Transfer/Delivery.antt =====
-- An object that is built, sent and received has the same hash and content at the receiver.
use samizdat.Prelude.{
  ℕ, ◌*◌, ◌<◌, ◌≤◌, ==_iff, ◌≡◌, refl, ap, sym, ◌∙◌, Bool, false, List, [], ◌∷◌, ◌++◌, some, length,
  append-nil, inl, inr, ◌⊎◌, eq_of_some,
}
use samizdat.Hash.{Hash}
use samizdat.Codec.{ReadsBack}
use samizdat.Cipher.{Aead}
use samizdat.Cipher.Opening.{IsCipher}
use samizdat.Patricia.Proof.Binding.{Collision}
use samizdat.Database.{Db}
use samizdat.Objects.Header.{chunk_size, ObjectHeader, buffer}
use samizdat.Objects.Header.Escaping.{oks}
use samizdat.Objects.Building.{ObjectCodecs, Clock, refused, stored, import, build}
use samizdat.Objects.Building.Cuts.{concat}
use samizdat.Objects.Building.Imports.{import-build, import_as-stored}
use samizdat.Objects.Reading.{content}
use samizdat.Objects.Reading.Contents.{hash_eq_refl}
use samizdat.Objects.Reading.Built.{Holds, cut_of, build-Stores, content-Holds}
use samizdat.Transfer.{Brotli, MessageCodecs, send_object, check_import, recv_object}
use samizdat.Transfer.Honest.{IsBrotli, Fits, size_message, send_object-Holds, recv_object-messages}

module _ (digest : List ℕ → Hash) (codecs : ObjectCodecs) (formats : MessageCodecs) (aead : Aead)
    (brotli : Brotli) where
  -- The checks let an object pass that the tables hold.
  check_import-Holds :
      (db : Db) (hash : Hash) (header : ObjectHeader) (cs : List (List ℕ)) (data_nonce : Hash)
      → Holds digest codecs db hash header cs
      → check_import digest codecs formats aead brotli
          (size_message digest codecs formats aead brotli data_nonce cs)
          hash
          (stored db hash)
        ≡ stored db hash
  check_import-Holds db hash header cs data_nonce h =
      rw h.known (
        rw ((==_iff (length (concat cs)) (length (concat cs))).1 refl)
          (rw (hash_eq_refl hash) refl))

  -- Two tables that hold objects of the same chunks hold them under the same hash.
  same_hash :
      (db other : Db) (a b : Hash) (header : ObjectHeader) (cs : List (List ℕ))
      → Holds digest codecs db a header cs
      → Holds digest codecs other b header cs
      → b ≡ a
  same_hash db other a b header cs h k = eq_of_some b a (sym k.rooted ∙ h.rooted)

  -- Importing the bytes that are received makes the object again.
  import_all :
      (db : Db) (header : ObjectHeader) (clock : Clock) (bytes : List ℕ) (cs : List (List ℕ))
      → ReadsBack codecs.headers
      → length (buffer codecs.headers header) < chunk_size
      → concat cs ≡ buffer codecs.headers header ++ bytes
      → import digest codecs db (length (concat cs)) false clock (oks (concat cs))
        ≡ build digest codecs db header false clock (oks bytes)
  import_all db header clock bytes cs back small whole =
      ap (λ l. import digest codecs db (length l) false clock (oks l)) whole
      ∙ ap (import digest codecs db (length (buffer codecs.headers header ++ bytes)) false clock)
          (sym (append-nil (oks (buffer codecs.headers header ++ bytes))))
      ∙ import-build digest codecs db header false clock bytes [] back small

  -- One node builds an object from bytes and sends it, and another node, with tables of its own,
  -- receives the messages. Either the receiver ends with an object of the same hash, whose content
  -- it reads as the same bytes, or two different texts with one digest are found. What is sent is
  -- encrypted and compressed so that the receiver can undo it, in messages that are not too long; the
  -- formats of the tables and messages are read back, the written header is shorter than a chunk, and
  -- header and content together are within the receiver's limit.
  pub recv_object-send_object :
      (db receiver_db : Db) (header : ObjectHeader) (bookmark : Bool) (clock receiver_clock : Clock)
      (bytes : List ℕ) (now max_content_size : ℕ) (nonce data_nonce : Hash)
      → ReadsBack codecs.headers
      → ReadsBack codecs.metadata
      → ReadsBack codecs.statistics
      → ReadsBack formats.nonces
      → ReadsBack formats.objects
      → IsCipher aead
      → IsBrotli brotli
      → Fits formats aead brotli nonce data_nonce (length (buffer codecs.headers header ++ bytes))
      → length (buffer codecs.headers header) < chunk_size
      → length (buffer codecs.headers header ++ bytes) ≤ max_content_size * 1000000
      → (sender_db : Db) × (hash : Hash) × (build digest codecs db header bookmark clock (oks bytes)
          ≡ stored sender_db hash)
        × (((after : Db) × (recv_object digest codecs formats aead brotli receiver_db
                  max_content_size receiver_clock
                  (send_object digest codecs formats aead brotli sender_db hash now nonce
                    data_nonce).messages
                  hash
                ≡ stored after hash)
              × (content digest codecs after hash ≡ some (some bytes)))
            ⊎ Collision digest)
  recv_object-send_object db receiver_db header bookmark clock receiver_clock bytes now
        max_content_size nonce data_nonce headers metas stats nonces objects cipher unpacks fits
        small limit =
      let c = cut_of digest codecs header bytes small in
      let cs = c.first ∷ c.others in
      let (sender_db, hash, built, sender) =
        build-Stores digest codecs db header bookmark clock bytes small metas in
      let (after, again, rebuilt, receiver) =
        build-Stores digest codecs receiver_db header false receiver_clock bytes small metas in
      (
        sender_db,
        hash,
        built,
        elim sender [
          | inl s ↦ elim receiver [
            | inl r ↦
                let same = same_hash sender_db after hash again header cs s r in
                let r' : Holds digest codecs after hash header cs = rw (← same) r in
                let ends =
                  ap
                    (λ m.
                      recv_object digest codecs formats aead brotli receiver_db max_content_size
                        receiver_clock m hash)
                    (send_object-Holds digest codecs formats aead brotli sender_db hash header cs
                      now nonce data_nonce stats s)
                  ∙ recv_object-messages digest codecs formats aead brotli receiver_db hash cs
                      max_content_size receiver_clock nonce data_nonce cipher unpacks
                      (rw (ap length c.whole) fits) nonces objects c.bounded
                      (rw (ap length c.whole) limit)
                  ∙ ap
                      (check_import digest codecs formats aead brotli
                        (size_message digest codecs formats aead brotli data_nonce cs) hash)
                      (import_as-stored digest codecs refused receiver_db (length (concat cs)) false
                        receiver_clock (oks (concat cs)) after hash
                        (import_all receiver_db header receiver_clock bytes cs headers small c.whole
                          ∙ rebuilt
                          ∙ ap (stored after) same))
                  ∙ check_import-Holds after hash header cs data_nonce r' in
                inl (
                  after,
                  ends,
                  content-Holds digest codecs after hash header bytes cs headers small c.whole r',
                )
            | inr collision ↦ inr collision
          ]
          | inr collision ↦ inr collision
        ],
      )
