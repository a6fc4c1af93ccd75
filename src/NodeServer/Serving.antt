-- ===== src/NodeServer/Serving.antt =====
-- What a node reveals and sends, and that what a client asks for reaches it through a chain of hubs.
use samizdat.Prelude.{
  ℕ, ◌<◌, ◌≡◌, refl, ◌∙◌, ap, ◌⊎◌, inl, inr, Bool, true, false, not, List, [], ◌∷◌, ◌++◌, Option,
  none, some, length,
}
use samizdat.Codec.{Codec, ReadsBack}
use samizdat.Hash.{Hash}
use samizdat.Cipher.{Aead}
use samizdat.Cipher.Opening.{IsCipher}
use samizdat.Riddle.{Message, Riddle, new_with_nonce, riddle_for, resolve}
use samizdat.Riddle.Solving.{resolve-riddle_for}
use samizdat.Patricia.Proof.Binding.{Collision}
use samizdat.Collection.Items.{CollectionItem}
use samizdat.Objects.Building.{ObjectCodecs}
use samizdat.Objects.Reading.{find, is_draft}
use samizdat.Lookup.Found.{find-known}
use samizdat.Rpc.{ChannelAddr, object_kind, Resolution, found, empty_resolution, not_found}
use samizdat.Hub.Room.Peers.{Every}
use samizdat.Hub.Resolving.Chain.{descend, riddles_of, Passed, descend-Passed}
use samizdat.NodeServer.{
  send_object_task, Served, unwrap_or_true, NodeTables, serve_object, resolve_object_by,
  resolve_object, resolve_call,
}

module _ (digest : List ℕ → Hash) (codecs : ObjectCodecs) (aead : Aead)
    (addresses : Codec (Message ChannelAddr)) (item_codec : Codec CollectionItem) where
  -- An object that is no draft is found by the first riddle, the location is read with its hash, and it
  -- is sent to there.
  abbrev pub ObjectServed : NodeTables → Resolution → Type 0
  ObjectServed node resolution =
      (first : Riddle) × (rest : List Riddle) × (hash : Hash) × (peer_addr : ChannelAddr)
      × (resolution.content_riddles ≡ first ∷ rest)
      × (find digest first node.objects ≡ some hash)
      × (is_draft digest codecs node.db hash ≡ some false)
      × (resolve digest aead addresses resolution.location_message_riddle hash ≡ some peer_addr)
      × (resolve_object digest codecs aead addresses item_codec node resolution ≡ (
        found (riddles_of digest hash resolution.validation_nonces),
        some (send_object_task peer_addr hash),
      ))

  draft_cases : (d : Option Bool) → (d ≡ some false) ⊎ (not (unwrap_or_true d) ≡ false)
  draft_cases none = inr refl
  draft_cases (some true) = inr refl
  draft_cases (some false) = inl refl

  module _ (node : NodeTables) (resolution : Resolution) where
    abbrev answer : Served
    answer = resolve_object digest codecs aead addresses item_codec node resolution

    abbrev Outcomes : Type 0
    Outcomes =
        ObjectServed node resolution
        ⊎ ((answer ≡ (empty_resolution, none)) ⊎ (answer ≡ (not_found, none)))

    module _ (first : Riddle) (rest : List Riddle)
        (e : resolution.content_riddles ≡ first ∷ rest) where
      at_found :
          (m : Option Hash)
          → find digest first node.objects ≡ m
          → answer ≡ serve_object digest codecs aead addresses item_codec node resolution m
      unfolding resolve_object
      at_found m f =
          ap
            (λ riddles.
              resolve_object_by digest codecs aead addresses item_codec node resolution riddles)
            e
          ∙ ap (λ o. serve_object digest codecs aead addresses item_codec node resolution o) f

      of_location :
          (hash : Hash) (m : Option ChannelAddr)
          → find digest first node.objects ≡ some hash
          → is_draft digest codecs node.db hash ≡ some false
          → resolve digest aead addresses resolution.location_message_riddle hash ≡ m
          → Outcomes
      of_location hash none f d l = inr (inr (at_found (some hash) f ∙ rw d (rw l refl)))
      of_location hash (some peer_addr) f d l =
          inl (first, rest, hash, peer_addr, e, f, d, l, at_found (some hash) f ∙ rw d (rw l refl))

      of_found : (m : Option Hash) → find digest first node.objects ≡ m → Outcomes
      of_found none f = inr (inr (at_found none f))
      of_found (some hash) f = elim (draft_cases (is_draft digest codecs node.db hash)) [
        | inl d ↦ of_location hash _ f d refl
        | inr d ↦ inr (inr (at_found (some hash) f ∙ rw d refl))
      ]

    of_riddles : (riddles : List Riddle) → resolution.content_riddles ≡ riddles → Outcomes
    unfolding resolve_object
    of_riddles [] e = inr (
        inl (
          ap
            (λ riddles.
              resolve_object_by digest codecs aead addresses item_codec node resolution riddles)
            e))
    of_riddles (first ∷ rest) e = of_found first rest e (find digest first node.objects) refl

  -- Either the first riddle of a resolution finds an object of the node that is known not to be a draft,
  -- the location in the resolution can be read with its hash, and the node sends the object to there and
  -- answers with riddles made from the hash for all validation nonces; or it starts no transfer and
  -- its answer holds no riddles.
  pub resolve_object-served :
      (node : NodeTables) (resolution : Resolution)
      → ObjectServed node resolution
        ⊎ ((resolve_object digest codecs aead addresses item_codec node resolution
              ≡ (empty_resolution, none))
            ⊎ (resolve_object digest codecs aead addresses item_codec node resolution
                ≡ (not_found, none)))
  resolve_object-served node resolution = of_riddles node resolution resolution.content_riddles refl

  module _ (digest_sized : (x : List ℕ) → length (digest x) ≡ 28) where
    -- What a client asks for by a hash, with its location under another riddle for that hash.
    abbrev pub asked : Hash → List Hash → Hash → ChannelAddr → Resolution
    asked hash nonces rand location = record {
      content_riddles = riddles_of digest hash nonces;
      validation_nonces = [];
      location_message_riddle =
          riddle_for digest aead addresses (new_with_nonce digest hash rand) location;
      kind = object_kind;
    }

    -- A resolution for an object goes down a chain of hubs that is shorter than its list of riddles. A
    -- node at its end that has the object, known not to be a draft, sends it to the location that the
    -- client gave, and its answer passes the checks of all the hubs, or else two texts with one digest
    -- are known. Ciphers and serialisation are required to be undone by their inverses.
    pub descend-resolve_object :
        (hubs : ℕ) (hash : Hash) (nonces : List Hash) (rand : Hash) (location : ChannelAddr)
        (node : NodeTables) (before after : List Hash)
        → IsCipher aead
        → ReadsBack addresses
        → hubs < length nonces
        → node.objects ≡ before ++ hash ∷ after
        → is_draft digest codecs node.db hash ≡ some false
        → (checks : List (Riddle × List Hash)) × (last : Resolution) × (descend hubs
              (asked hash nonces rand location)
            ≡ some (checks, last))
          × (((resolve_call digest codecs aead addresses item_codec node last ≡ (
            found (riddles_of digest hash last.validation_nonces),
            some (send_object_task location hash),
          ))
                × Every (Passed digest hash last) checks)
              ⊎ Collision digest)
    unfolding resolve_object
    descend-resolve_object hubs hash nonces rand location node before after cipher back short has
          known =
        let (checks, last, nonce, rest, run, riddles, message, kind, passed) =
          descend-Passed digest hash hubs nonces (asked hash nonces rand location) refl short in
        (
          checks,
          last,
          run,
          elim (find-known digest digest_sized hash nonce before after) [
            | inl f ↦ inl (
              rw
                  (
                    kind,
                    riddles,
                    has,
                    f,
                    known,
                    message,
                    resolve-riddle_for digest aead addresses hash rand location cipher back,
                  )
                  refl,
              passed,
            )
            | inr c ↦ inr c
          ],
        )
