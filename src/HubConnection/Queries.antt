-- ===== src/HubConnection/Queries.antt =====
-- What a query to a hub returns, and that an honest candidate makes it succeed.
use samizdat.Prelude.{
  ℕ, ◌*◌, ◌≤◌, ◌<◌, ◌≡◌, refl, sym, ◌∙◌, ap, ap₂, ◌⊎◌, inl, inr, Bool, List, [], ◌∷◌, ◌++◌, Option,
  none, some, length,
}
use samizdat.Codec.{Codec, ReadsBack}
use samizdat.Hash.{Hash}
use samizdat.Cipher.{Aead}
use samizdat.Cipher.Opening.{IsCipher}
use samizdat.Patricia.Proof.Binding.{Collision}
use samizdat.Collection.Items.{CollectionItem}
use samizdat.Database.{Db}
use samizdat.Objects.Header.{chunk_size, ObjectHeader, buffer}
use samizdat.Objects.Header.Escaping.{oks}
use samizdat.Objects.Building.{
  ObjectMetadata, ObjectCodecs, Clock, Ending, unfinished, panicked, refused, stored, build,
}
use samizdat.Objects.Reading.{metadata, content}
use samizdat.Transfer.{Brotli, MessageCodecs, recv_object, send_object}
use samizdat.Transfer.Checks.{recv_object-stored}
use samizdat.Transfer.Delivery.{recv_object-send_object}
use samizdat.Transfer.Honest.{IsBrotli, Fits}
use samizdat.Transfer.Items.{ItemMessage, Asked, recv_item-Asked}
use samizdat.Rpc.{
  QueryKind, object_kind, item_kind, QueryResponse, internal_error, replayed, empty_query,
  no_reverse_connection, resolved,
}
use samizdat.HubConnection.{
  all_candidates_failed, QueryOutcome, query_failed, query_found, Attempt, deadline, connected,
  receive, next_attempt, query_loop, query_hub,
}

module _ (digest : List ℕ → Hash) (codecs : ObjectCodecs) (formats : MessageCodecs) (aead : Aead)
    (brotli : Brotli) (item_codec : Codec CollectionItem) (item_messages : Codec ItemMessage)
    (max_content_size : ℕ) (content_hash : Hash) where
  -- What a query must have received when it ends with an object.
  abbrev pub Received : QueryKind → Db → Hash → Type 0
  Received object_kind after object =
      (object ≡ content_hash)
      × (m : ObjectMetadata) × (metadata digest codecs after content_hash ≡ some (some m))
      × (m.content_size ≤ max_content_size * 1000000)
  Received item_kind after object =
      Asked digest codecs formats aead brotli item_codec item_messages content_hash after object

  abbrev loop : QueryKind → List Attempt → Db → QueryOutcome
  loop =
      query_loop digest codecs formats aead brotli item_codec item_messages max_content_size
        content_hash

  abbrev receives : QueryKind → Db → Clock → List (List ℕ) → Ending
  receives =
      receive digest codecs formats aead brotli item_codec item_messages max_content_size
        content_hash

  abbrev continue_with : Ending → (Db → QueryOutcome) → QueryOutcome
  continue_with =
      next_attempt digest codecs formats aead brotli item_codec item_messages max_content_size
        content_hash

  receive-Received :
      (kind : QueryKind) (db : Db) (clock : Clock) (messages : List (List ℕ)) (after : Db)
      (object : Hash)
      → receives kind db clock messages ≡ stored after object
      → Received kind after object
  receive-Received object_kind db clock messages after object h =
      recv_object-stored digest codecs formats aead brotli db max_content_size clock messages
        content_hash after object h
  receive-Received item_kind db clock messages after object h =
      recv_item-Asked digest codecs formats aead brotli item_codec item_messages db max_content_size
        clock messages content_hash after object h

  next_attempt-Received :
      (kind : QueryKind) (db : Db) (clock : Clock) (messages : List (List ℕ))
      (attempts : List Attempt) (after : Db) (object : Hash) (ending : Ending)
      → receives kind db clock messages ≡ ending
      → ((db' : Db)
          → loop kind attempts db' ≡ query_found after object
          → Received kind after object)
      → continue_with ending (λ db'. loop kind attempts db') ≡ query_found after object
      → Received kind after object
  next_attempt-Received kind db clock messages attempts after object unfinished e more h =
      absurd (cc h)
  next_attempt-Received kind db clock messages attempts after object panicked e more h =
      absurd (cc h)
  next_attempt-Received kind db clock messages attempts after object (refused db') e more h =
      more db' h
  next_attempt-Received kind db clock messages attempts after object (stored db' other) e more h =
      receive-Received kind db clock messages after object
        (e ∙ ap (λ d. stored d other) (cc h) ∙ ap (λ o. stored after o) (cc h))

  query_loop-Received :
      (kind : QueryKind) (attempts : List Attempt) (db after : Db) (object : Hash)
      → loop kind attempts db ≡ query_found after object
      → Received kind after object
  unfolding query_loop
  query_loop-Received kind [] db after object h = absurd (cc h)
  query_loop-Received kind (deadline ∷ attempts) db after object h = absurd (cc h)
  query_loop-Received kind (connected clock messages ∷ attempts) db after object h =
      next_attempt-Received kind db clock messages attempts after object
        (receives kind db clock messages) refl
        (λ db' e. query_loop-Received kind attempts db' after object e) h

  -- Whatever hub, candidates and peers send, a query that ends with an object has received what was
  -- asked for: the object with the content hash, of a size within the limit and with its metadata in the
  -- tables; or the object of a valid item whose locator has the content hash.
  pub query_hub-Received :
      (kind : QueryKind) (candidates : ℕ → ℕ → List Attempt) (db : Db)
      (response : Option QueryResponse) (after : Db) (object : Hash)
      → query_hub digest codecs formats aead brotli item_codec item_messages max_content_size
          content_hash kind candidates db response
        ≡ query_found after object
      → Received kind after object
  unfolding query_hub
  query_hub-Received kind candidates db none after object h = absurd (cc h)
  query_hub-Received kind candidates db (some replayed) after object h = absurd (cc h)
  query_hub-Received kind candidates db (some empty_query) after object h = absurd (cc h)
  query_hub-Received kind candidates db (some no_reverse_connection) after object h = absurd (cc h)
  query_hub-Received kind candidates db (some internal_error) after object h = absurd (cc h)
  query_hub-Received kind candidates db (some (resolved channel id)) after object h =
      query_loop-Received kind (candidates channel id) db after object h

  after_exhausted :
      (kind : QueryKind) (later : List Attempt) (db' : Db) (before : List Attempt) (ending : Ending)
      → ((db : Db)
          → loop kind before db ≡ query_failed db' all_candidates_failed
          → loop kind (before ++ later) db ≡ loop kind later db')
      → continue_with ending (λ db. loop kind before db) ≡ query_failed db' all_candidates_failed
      → continue_with ending (λ db. loop kind (before ++ later) db) ≡ loop kind later db'
  after_exhausted kind later db' before unfinished more h = absurd (cc h)
  after_exhausted kind later db' before panicked more h = absurd (cc h)
  after_exhausted kind later db' before (refused db) more h = more db h
  after_exhausted kind later db' before (stored db object) more h = absurd (cc h)

  query_loop-append :
      (kind : QueryKind) (before later : List Attempt) (db db' : Db)
      → loop kind before db ≡ query_failed db' all_candidates_failed
      → loop kind (before ++ later) db ≡ loop kind later db'
  unfolding query_loop
  query_loop-append kind [] later db db' h = ap (λ d. loop kind later d) (failed_at db db' h)
    where
      failed_at :
          (a b : Db)
          → query_failed a all_candidates_failed ≡ query_failed b all_candidates_failed
          → a ≡ b
      failed_at a b e = cc e
  query_loop-append kind (deadline ∷ before) later db db' h = absurd (cc h)
  query_loop-append kind (connected clock messages ∷ before) later db db' h =
      after_exhausted kind later db' before (receives kind db clock messages)
        (λ d e. query_loop-append kind before later d db' e) h

  -- The connections of a query for an object come one after the other, and the first of them fail
  -- with an error, none with a panic. If then one comes from a node that has built the object from
  -- bytes and sends it, the query ends with the object, whose content is read as the same bytes, or
  -- two different texts with one digest are found; what candidates come later is not looked at. The
  -- conditions are those of the transfer: the cipher, the compression and the formats are undone by
  -- their inverses, the messages are not too long, and the object is within the limit.
  pub query_loop-delivers :
      (before later : List Attempt) (db0 db sender_db sent_db : Db) (header : ObjectHeader)
      (bookmark : Bool) (clock receiver_clock : Clock) (bytes : List ℕ) (now : ℕ)
      (nonce data_nonce : Hash)
      → ReadsBack codecs.headers
      → ReadsBack codecs.metadata
      → ReadsBack codecs.statistics
      → ReadsBack formats.nonces
      → ReadsBack formats.objects
      → IsCipher aead
      → IsBrotli brotli
      → Fits formats aead brotli nonce data_nonce (length (buffer codecs.headers header ++ bytes))
      → length (buffer codecs.headers header) < chunk_size
      → length (buffer codecs.headers header ++ bytes) ≤ max_content_size * 1000000
      → build digest codecs sender_db header bookmark clock (oks bytes)
        ≡ stored sent_db content_hash
      → loop object_kind before db0 ≡ query_failed db all_candidates_failed
      → ((after : Db) × (loop object_kind
              (before
                ++ connected receiver_clock
                    (send_object digest codecs formats aead brotli sent_db content_hash now nonce
                      data_nonce).messages
                  ∷ later)
              db0
            ≡ query_found after content_hash)
          × (content digest codecs after content_hash ≡ some (some bytes)))
        ⊎ Collision digest
  unfolding query_loop
  query_loop-delivers before later db0 db sender_db sent_db header bookmark clock receiver_clock
        bytes now nonce data_nonce headers metas stats nonces objects cipher unpacks fits small
        limit built exhausted =
      let (sent, hash, built', delivered) =
        recv_object-send_object digest codecs formats aead brotli sender_db db header bookmark clock
          receiver_clock bytes now max_content_size nonce data_nonce headers metas stats nonces
          objects cipher unpacks fits small limit in
      let same_db : sent ≡ sent_db =
        stored_db sent sent_db hash content_hash (sym built' ∙ built) in
      let same : hash ≡ content_hash =
        stored_hash sent sent_db hash content_hash (sym built' ∙ built) in
      let received = λ (tables : Db) (h : Hash).
        recv_object digest codecs formats aead brotli db max_content_size receiver_clock
          (send_object digest codecs formats aead brotli tables h now nonce data_nonce).messages
          h in
      elim delivered [
        | inl d ↦ inl (
          d.0,
          query_loop-append object_kind before _ db0 db exhausted
              ∙ ap (λ e. continue_with e (λ db'. loop object_kind later db'))
                  (sym (ap₂ received same_db same) ∙ d.1 ∙ ap (λ h. stored d.0 h) same),
          ap (λ h. content digest codecs d.0 h) (sym same) ∙ d.2,
        )
        | inr c ↦ inr c
      ]
    where
      stored_db : (a b : Db) (x y : Hash) → stored a x ≡ stored b y → a ≡ b
      stored_db a b x y e = cc e

      stored_hash : (a b : Db) (x y : Hash) → stored a x ≡ stored b y → x ≡ y
      stored_hash a b x y e = cc e
