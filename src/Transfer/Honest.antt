-- ===== src/Transfer/Honest.antt =====
-- What an honest sender sends is received.
use samizdat.Prelude.{
  ℕ, ◌*◌, ◌≤◌, leb, le→leb, le→not_ltb, ◌≡◌, refl, ap, sym, ◌∙◌, true, false, List, [], ◌∷◌, ◌++◌,
  some, map, length, >>=-eq-some, eq_of_some,
}
use samizdat.Hash.{Hash}
use samizdat.Codec.{Codec, ReadsBack}
use samizdat.Cipher.{Aead, TransferCipher, new_cipher, encrypt, encrypt_opaque}
use samizdat.Cipher.Opening.{IsCipher, decrypt-encrypt, decrypt_with-encrypt_opaque}
use samizdat.Database.{Db, put_cf, object_statistics}
use samizdat.Objects.Header.{chunk_size, ObjectHeader}
use samizdat.Objects.Header.Escaping.{oks, oks-append}
use samizdat.Objects.Building.{ObjectCodecs, Clock, refused, touch_statistics, import_as}
use samizdat.Objects.Building.Cuts.{concat, AllShort}
use samizdat.Objects.Reading.{get_chunk, collect_chunks, metadata, statistics, touch}
use samizdat.Objects.Reading.Built.{Holds, collect_chunks_same}
use samizdat.Transfer.{
  max_header_length, max_stream_size, ObjectMessage, Brotli, Content, MessageCodecs, recv_message,
  init_cipher, nonce_message, send_chunk, send_chunks, send_object, content_stream, check_import,
  recv_data, recv_object,
}

-- What was compressed is decompressed.
pub record IsBrotli (brotli : Brotli) : Type 0 where
  pub decompresses : (buf : List ℕ) → brotli.decompress (brotli.compress buf) ≡ (buf, true)

-- With any key, the messages with the nonce and with the size are not too long for the receiver, nor
-- are those of chunks.
pub record Fits (formats : MessageCodecs) (aead : Aead) (brotli : Brotli) (nonce data_nonce : Hash)
    (size : ℕ) : Type 0 where
  pub nonce_fits :
      (c : TransferCipher)
      → length (encrypt_opaque aead formats.nonces c (record { nonce = nonce })) ≤ max_header_length
  pub size_fits :
      (c : TransferCipher)
      → length (
          encrypt_opaque aead formats.objects c
            (record { nonce = data_nonce; content_size = size }))
        ≤ max_header_length
  pub chunk_fits :
      (c : TransferCipher) (chunk : List ℕ)
      → length chunk ≤ chunk_size
      → length (encrypt aead c (brotli.compress chunk)) ≤ max_stream_size

module _ (digest : List ℕ → Hash) (codecs : ObjectCodecs) (formats : MessageCodecs) (aead : Aead)
    (brotli : Brotli) where
  abbrev sealed : TransferCipher → List ℕ → List ℕ
  sealed c chunk = encrypt aead c (brotli.compress chunk)

  send_chunks-collect_chunks :
      (c : TransferCipher) (db : Db) (keys : List Hash) (cs : List (List ℕ))
      → collect_chunks db keys ≡ some cs
      → send_chunks digest codecs formats aead brotli c db keys ≡ (map (sealed c) cs, true)
  unfolding send_chunks collect_chunks
  send_chunks-collect_chunks c db [] cs h = ap (λ l. (map (sealed c) l, true)) (eq_of_some [] cs h)
  send_chunks-collect_chunks c db (key ∷ keys) cs h =
      let (chunk, got, h2) = >>=-eq-some (get_chunk db key) _ h in
      let (others, more, e) = >>=-eq-some (collect_chunks db keys) _ h2 in
      rw got (
        ap (λ r. send_chunk digest codecs formats aead brotli c (some chunk) r)
          (send_chunks-collect_chunks c db keys others more)
        ∙ ap (λ l. (map (sealed c) l, true)) (eq_of_some _ _ e))

  content_stream-map :
      (c : TransferCipher) (cs : List (List ℕ)) (nonce data_nonce : Hash) (size : ℕ)
      → IsCipher aead
      → IsBrotli brotli
      → Fits formats aead brotli nonce data_nonce size
      → AllShort chunk_size cs
      → content_stream digest codecs formats aead brotli c (map (sealed c) cs)
        ≡ record { source = oks (concat cs); failure = refused }
  unfolding content_stream
  content_stream-map c [] nonce data_nonce size cipher unpacks fits short = refl
  content_stream-map c (chunk ∷ cs) nonce data_nonce size cipher unpacks fits (short, shorts) =
      let fit : leb (length (sealed c chunk)) max_stream_size ≡ true =
        le→leb _ _ (fits.chunk_fits c chunk short) in
      rw fit (
        rw (decrypt-encrypt aead c (brotli.compress chunk) cipher) (
          rw (unpacks.decompresses chunk) (
            ap (λ (rest : Content). record rest { source = oks chunk ++ rest.source })
              (content_stream-map c cs nonce data_nonce size cipher unpacks fits shorts)
            ∙ ap (λ l. record { source = l; failure = refused })
                (sym (oks-append chunk (concat cs))))))

  recv_message-encrypt_opaque :
      {T : Type 0} (codec : Codec T) (c : TransferCipher) (m : T) (rest : List (List ℕ))
      → IsCipher aead
      → ReadsBack codec
      → length (encrypt_opaque aead codec c m) ≤ max_header_length
      → recv_message digest codecs formats aead brotli codec c
          (encrypt_opaque aead codec c m ∷ rest)
        ≡ some (m, rest)
  unfolding recv_message
  recv_message-encrypt_opaque codec c m rest cipher back short =
      let fit : leb (length (encrypt_opaque aead codec c m)) max_header_length ≡ true =
        le→leb _ _ short in
      rw fit (rw (decrypt_with-encrypt_opaque aead codec c m cipher back) refl)

  abbrev pub size_message : Hash → List (List ℕ) → ObjectMessage
  size_message data_nonce cs = record { nonce = data_nonce; content_size = length (concat cs) }

  abbrev pub all_messages : Hash → Hash → Hash → List (List ℕ) → List (List ℕ)
  all_messages hash nonce data_nonce cs =
      nonce_message digest codecs formats aead brotli hash nonce
      ∷ encrypt_opaque aead formats.objects (new_cipher hash nonce) (size_message data_nonce cs)
      ∷ map (sealed (new_cipher hash data_nonce)) cs

  -- What is sent of an object that the tables hold.
  pub send_object-Holds :
      (db : Db) (hash : Hash) (header : ObjectHeader) (cs : List (List ℕ)) (now : ℕ)
      (nonce data_nonce : Hash)
      → ReadsBack codecs.statistics
      → Holds digest codecs db hash header cs
      → (send_object digest codecs formats aead brotli db hash now nonce data_nonce).messages
        ≡ all_messages hash nonce data_nonce cs
  unfolding send_object touch statistics metadata
  send_object-Holds db hash header cs now nonce data_nonce back h =
      let after =
        put_cf db object_statistics hash
          (codecs.statistics.serialize (touch_statistics h.used now)) in
      rw h.used_stored (
        rw (back.round_trip h.used) (
          rw h.known (
            ap
              (λ r.
                nonce_message digest codecs formats aead brotli hash nonce
                ∷ encrypt_opaque aead formats.objects (new_cipher hash nonce)
                    (size_message data_nonce cs)
                ∷ r.0)
              (send_chunks-collect_chunks (new_cipher hash data_nonce) after (map digest cs) cs
                (collect_chunks_same digest codecs after db (map digest cs) refl ∙ h.readable)))))

  -- What a receiver makes of these messages.
  pub recv_object-messages :
      (db : Db) (hash : Hash) (cs : List (List ℕ)) (max_content_size : ℕ) (clock : Clock)
      (nonce data_nonce : Hash)
      → IsCipher aead
      → IsBrotli brotli
      → Fits formats aead brotli nonce data_nonce (length (concat cs))
      → ReadsBack formats.nonces
      → ReadsBack formats.objects
      → AllShort chunk_size cs
      → length (concat cs) ≤ max_content_size * 1000000
      → recv_object digest codecs formats aead brotli db max_content_size clock
          (all_messages hash nonce data_nonce cs)
          hash
        ≡ check_import digest codecs formats aead brotli
            (size_message data_nonce cs)
            hash
            (import_as digest codecs refused db (length (concat cs)) false clock (oks (concat cs)))
  unfolding recv_object recv_data
  recv_object-messages db hash cs max_content_size clock nonce data_nonce cipher unpacks fits
        back_nonces back_objects short small =
      let first =
        recv_message-encrypt_opaque formats.nonces
          (init_cipher digest codecs formats aead brotli hash) (record { nonce = nonce })
          (encrypt_opaque aead formats.objects (new_cipher hash nonce) (size_message data_nonce cs)
            ∷ map (sealed (new_cipher hash data_nonce)) cs)
          cipher back_nonces (fits.nonce_fits _) in
      let second =
        recv_message-encrypt_opaque formats.objects (new_cipher hash nonce)
          (size_message data_nonce cs) (map (sealed (new_cipher hash data_nonce)) cs) cipher
          back_objects (fits.size_fits _) in
      rw first (
        rw second (
          rw (le→not_ltb (max_content_size * 1000000) (length (concat cs)) small) (
            rw
              (content_stream-map (new_cipher hash data_nonce) cs nonce data_nonce
                (length (concat cs)) cipher unpacks fits short)
              refl)))
