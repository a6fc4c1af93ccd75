-- ===== src/Transfer/Items.antt =====
-- node/src/system/file_transfer/mod.rs: an item of a collection is sent with its object. The receiver
-- asks for the hash of a locator.
use samizdat.Prelude.{
  ℕ, false, not, ◌≡◌, refl, ap, sym, ◌∙◌, List, [], Option, none, some, ◌>>=◌, if◌then◌else◌,
  Bool-cases, inl, inr,
}
use samizdat.Hash.{Hash, hash_eq, hash_eq_iff}
use samizdat.Codec.{Codec}
use samizdat.Cipher.{Aead, new_cipher, encrypt_opaque}
use samizdat.Collection.Items.{CollectionItem, object, locator_hash}
use samizdat.Collection.Tables.{Tables, insert_item}
use samizdat.Database.{Db, set_table, collection_items, collection_item_locators}
use samizdat.Objects.Building.{
  ObjectMetadata, ObjectCodecs, Clock, Ending, unfinished, panicked, refused, stored,
}
use samizdat.Objects.Reading.{metadata}
use samizdat.Transfer.{
  Brotli, MessageCodecs, ObjectMessage, Sent, for_object, nonce_message, send_data, with_data,
  recv_message, recv_negotiate, recv_data,
}
use samizdat.Transfer.Checks.{recv_data_inv}

pub record ItemMessage : Type 0 where
  pub item : CollectionItem
  pub object_header : ObjectMessage

module _ (digest : List ℕ → Hash) (codecs : ObjectCodecs) (formats : MessageCodecs) (aead : Aead)
    (brotli : Brotli) (item_codec : Codec CollectionItem) (item_messages : Codec ItemMessage) where
  abbrev nothing_sent : Db → Sent
  nothing_sent db = record { db = db; messages = []; finished = false }

  abbrev pub send_found :
      Db → CollectionItem → Hash → Hash → Hash → Option (Option ObjectMetadata) → Sent
  send_found db item hash nonce data_nonce (some (some m)) =
      let locator = locator_hash digest item.collection item.name in
      let header = for_object digest codecs formats aead brotli m data_nonce in
      with_data digest codecs formats aead brotli db
        (nonce_message digest codecs formats aead brotli locator nonce)
        (encrypt_opaque aead item_messages (new_cipher locator nonce)
          (record { item = item; object_header = header }))
        (send_data digest codecs formats aead brotli header db hash m)
  send_found db item hash nonce data_nonce (some none) = nothing_sent db
  send_found db item hash nonce data_nonce none = nothing_sent db

  abbrev pub send_valid : Db → CollectionItem → Hash → Hash → Option (Option Hash) → Sent
  send_valid db item nonce data_nonce (some (some hash)) =
      send_found db item hash nonce data_nonce (metadata digest codecs db hash)
  send_valid db item nonce data_nonce (some none) = nothing_sent db
  send_valid db item nonce data_nonce none = nothing_sent db

  -- `send_item`, which `for_item` is a part of, with the nonces that are drawn.
  unfoldable pub send_item : Db → CollectionItem → Hash → Hash → Sent
  send_item db item nonce data_nonce = send_valid db item nonce data_nonce (object digest item)

  -- `item.insert()`
  abbrev pub insert_into : Db → CollectionItem → Db
  insert_into db item =
      let before : Tables = record {
        collection_items = db collection_items;
        collection_item_locators = db collection_item_locators;
      } in
      let t = insert_item digest item_codec before item in
      set_table (set_table db collection_items t.collection_items) collection_item_locators
        t.collection_item_locators

  -- The object of the item is returned, if its data was received.
  abbrev pub return_object : Hash → Ending → Ending
  return_object hash (stored db received) = stored db hash
  return_object hash unfinished = unfinished
  return_object hash panicked = panicked
  return_object hash (refused db) = refused db

  -- The part from `header.item.object()?` on.
  abbrev pub recv_valid :
      Db → ℕ → Clock → ItemMessage → List (List ℕ) → Option (Option Hash) → Ending
  recv_valid db max_content_size clock header messages none = panicked
  recv_valid db max_content_size clock header messages (some none) = refused db
  recv_valid db max_content_size clock header messages (some (some hash)) = return_object hash (
      recv_data digest codecs formats aead brotli (insert_into db header.item) max_content_size
        clock header.object_header messages hash)

  abbrev pub recv_item_from : Db → ℕ → Clock → Hash → Option (ItemMessage × List (List ℕ)) → Ending
  recv_item_from db max_content_size clock locator none = refused db
  recv_item_from db max_content_size clock locator (some (header, rest)) =
      if not (hash_eq (locator_hash digest header.item.collection header.item.name) locator)
      then refused db
      else recv_valid db max_content_size clock header rest (object digest header.item)

  -- `recv_item`
  unfoldable pub recv_item : Db → ℕ → Clock → List (List ℕ) → Hash → Ending
  recv_item db max_content_size clock messages locator =
      recv_item_from db max_content_size clock locator (do
        (cipher, rest) ← recv_negotiate digest codecs formats aead brotli messages locator
        recv_message digest codecs formats aead brotli item_messages cipher rest)

  -- What is received is the object of a valid item with the locator that was asked for.
  pub record Asked (locator : Hash) (after : Db) (result : Hash) : Type 0 where
    pub item : CollectionItem
    pub located : locator_hash digest item.collection item.name ≡ locator
    pub valid : object digest item ≡ some (some result)
    pub m : ObjectMetadata
    pub known : metadata digest codecs after result ≡ some (some m)

  recv_valid-Asked :
      (db : Db) (max_content_size : ℕ) (clock : Clock) (header : ItemMessage)
      (messages : List (List ℕ)) (locator : Hash) (found : Option (Option Hash)) (after : Db)
      (result : Hash)
      → locator_hash digest header.item.collection header.item.name ≡ locator
      → object digest header.item ≡ found
      → recv_valid db max_content_size clock header messages found ≡ stored after result
      → Asked locator after result
  recv_valid-Asked db max_content_size clock header messages locator none after result located valid
        e =
      absurd (cc (e))
  recv_valid-Asked db max_content_size clock header messages locator (some none) after result
        located valid e =
      absurd (cc (e))
  recv_valid-Asked db max_content_size clock header messages locator (some (some hash)) after result
        located valid e =
      of_ending
        (recv_data digest codecs formats aead brotli (insert_into db header.item) max_content_size
          clock header.object_header messages hash)
        refl e
    where
      of_ending :
          (ending : Ending)
          → recv_data digest codecs formats aead brotli
              (insert_into db header.item)
              max_content_size
              clock
              header.object_header
              messages
              hash
            ≡ ending
          → return_object hash ending ≡ stored after result
          → Asked locator after result
      of_ending unfinished r e = absurd (cc (e))
      of_ending panicked r e = absurd (cc (e))
      of_ending (refused x) r e = absurd (cc (e))
      of_ending (stored x received) r e =
          let ((same, m, known, sized), small) =
            recv_data_inv digest codecs formats aead brotli (insert_into db header.item)
              max_content_size clock header.object_header messages hash x received r in
          let tables : x ≡ after = cc (e) in
          let it : hash ≡ result = cc (e) in
          record {
            item = header.item;
            located = located;
            valid = valid ∙ ap (λ h. some (some h)) it;
            m = m;
            known = (λ i. metadata digest codecs (sym tables i) (sym (same ∙ it) i)) ∙ known;
          }

  recv_item_from-Asked :
      (db : Db) (max_content_size : ℕ) (clock : Clock) (locator : Hash)
      (o : Option (ItemMessage × List (List ℕ))) (after : Db) (result : Hash)
      → recv_item_from db max_content_size clock locator o ≡ stored after result
      → Asked locator after result
  recv_item_from-Asked db max_content_size clock locator none after result e = absurd (cc (e))
  recv_item_from-Asked db max_content_size clock locator (some (header, rest)) after result e =
      elim (Bool-cases
        (hash_eq (locator_hash digest header.item.collection header.item.name) locator)) [
          | inl same ↦
              recv_valid-Asked db max_content_size clock header rest locator
                (object digest header.item) after result ((hash_eq_iff _ locator).0 same) refl
                (rw same at e)
          | inr differ ↦ absurd (cc (rw differ at e))
        ]

  -- Whatever messages a peer sends, if receiving an item ends with an object, then there is an item
  -- with the locator that was asked for which is valid and proves this object to be its value, and
  -- the tables have the object's metadata.
  pub recv_item-Asked :
      (db : Db) (max_content_size : ℕ) (clock : Clock) (messages : List (List ℕ)) (locator : Hash)
      (after : Db) (result : Hash)
      → recv_item db max_content_size clock messages locator ≡ stored after result
      → Asked locator after result
  unfolding recv_item
  recv_item-Asked db max_content_size clock messages locator after result e =
      recv_item_from-Asked db max_content_size clock locator _ after result e
