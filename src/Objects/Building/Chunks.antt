-- ===== src/Objects/Building/Chunks.antt =====
-- The loops of `build` and `import`: how far they read, and that they need no more fuel than there are bytes.
use samizdat.Prelude.{
  ℕ, zero, suc, ◌+◌, ◌<◌, ◌==◌, ==_iff, ltb, lt→ltb, ◌≡◌, refl, ap, sym, ◌∙◌, false, List, [], ◌∷◌,
  ◌++◌, Option, none, some, arith, length, length-append, append_assoc, append-nil, Bool-cases, inl,
  inr, ◌⊎◌, ◌>>=◌, if◌then◌else◌, >>=-eq-some, eq_of_some,
}
use samizdat.Hash.{Hash}
use samizdat.Objects.Header.{ObjectHeader}
use samizdat.Objects.Header.Escaping.{oks}
use samizdat.Objects.Building.{
  ObjectCodecs, Filled, one_more, fill, Progress, Chunking, chunked, add_chunk, build_round,
  build_loop, import_header, import_round, import_loop, header_of,
}

-- What a round of the inner loop takes from the source goes to the buffer.
pub record FilledBy (limit : ℕ) (buf : List ℕ) (source : List (Option ℕ)) (f : Filled)
    : Type 0 where
  pub taken : f.pushed + length f.source ≡ length source
  pub counted : length buf + f.pushed ≡ length f.filled
  pub stopped : (f.source ≡ []) ⊎ (length f.filled ≡ limit)

pub fill-FilledBy :
    (limit : ℕ) (buf : List ℕ) (source : List (Option ℕ)) (f : Filled)
    → fill limit buf source ≡ some f
    → FilledBy limit buf source f
unfolding fill
fill-FilledBy limit buf [] f h =
    rw (← eq_of_some _ _ h) (record { taken = refl; counted = omega arith; stopped = inl refl })
fill-FilledBy limit buf (none ∷ source) f h = absurd (cc (h))
fill-FilledBy limit buf (some byte ∷ source) f h =
    elim (Bool-cases (length (buf ++ byte ∷ []) == limit)) [
      | inl full ↦
          let e = eq_of_some _ _ (rw full at h) in
          rw (← e) (record {
            taken = omega arith;
            counted = omega (arith, length-append buf (byte ∷ []));
            stopped = inr ((==_iff (length (buf ++ byte ∷ [])) limit).0 full);
          })
      | inr room ↦
          let (g, more, e) = >>=-eq-some (fill limit (buf ++ byte ∷ []) source) _ (rw room at h) in
          let ih = fill-FilledBy limit (buf ++ byte ∷ []) source g more in
          rw (← eq_of_some _ _ e) (record {
            taken = omega (arith, ih.taken);
            counted = omega (arith, ih.counted, length-append buf (byte ∷ []));
            stopped = ih.stopped;
          })
    ]

-- From an empty buffer a full round shortens the source.
fill_shorter :
    (limit : ℕ) (source : List (Option ℕ)) (f : Filled)
    → 0 < limit
    → fill limit [] source ≡ some f
    → (length f.filled ≡ f.pushed) × ((length f.filled < limit) ⊎ (length f.source < length source))
fill_shorter limit source f pos h =
    let b = fill-FilledBy limit [] source f h in
    (omega (arith, b.counted), omega (arith, b.counted, b.taken))

abbrev pushing : Filled → ℕ → Option Filled
pushing f n = some (record { filled = f.filled; pushed = n; source = f.source })

fill_step :
    (limit : ℕ) (buf : List ℕ) (byte : ℕ) (source : List (Option ℕ))
    → (length (buf ++ byte ∷ []) == limit) ≡ false
    → fill limit buf (some byte ∷ source)
      ≡ (fill limit (buf ++ byte ∷ []) source >>= (λ f. some (one_more f)))
unfolding fill
fill_step limit buf byte source room = rw room refl

-- Bytes that do not fill the buffer are as good as if they stood in it already.
pub fill-append :
    (limit : ℕ) (buf more : List ℕ) (source : List (Option ℕ)) (f : Filled)
    → length (buf ++ more) < limit
    → fill limit (buf ++ more) source ≡ some f
    → fill limit buf (oks more ++ source)
      ≡ some (record { filled = f.filled; pushed = length more + f.pushed; source = f.source })
fill-append limit buf [] source f room h = rw append-nil at h ∙ ap (pushing f) (omega arith)
fill-append limit buf (byte ∷ more) source f room h =
    let assoc = sym (append_assoc buf (byte ∷ []) more) in
    let ih =
      fill-append limit (buf ++ byte ∷ []) more source f (rw assoc at room)
        (ap (λ b. fill limit b source) (sym assoc) ∙ h) in
    fill_step limit buf byte (oks more ++ source)
      (ground (arith, length-append buf (byte ∷ more), length-append buf (byte ∷ []), room))
    ∙ rw ih (ap (pushing f) (omega arith))

module _ (digest : List ℕ → Hash) (codecs : ObjectCodecs) (limit : ℕ) (pos : 0 < limit) where
  import_round-build_round :
      (source : List (Option ℕ)) (p : Progress) (header : ObjectHeader)
      (next_import next_build : List (Option ℕ) → Progress → Chunking) (o : Option Filled)
      → p.maybe_header ≡ some header
      → ((rest : List (Option ℕ)) (q : Progress)
          → q.maybe_header ≡ some header
          → next_import rest q ≡ next_build rest q)
      → fill limit [] source ≡ o
      → import_round digest codecs limit p next_import o
        ≡ build_round digest codecs limit p next_build o
  import_round-build_round source p header next_import next_build none hp ih e = refl
  import_round-build_round source p header next_import next_build (some f) hp ih e =
      let counted = (fill_shorter limit source f pos e).0 in
      let after = add_chunk digest codecs p f.filled (length f.filled) p.maybe_header in
      let same : add_chunk digest codecs p f.filled f.pushed (some header) ≡ after =
        λ i. add_chunk digest codecs p f.filled (sym counted i) (sym hp i) in
      ap
        (λ m.
          import_header digest codecs limit p next_import f (header_of digest codecs m f.filled))
        hp
      ∙ ap (λ q. if ltb (length f.filled) limit then chunked q else next_import f.source q) same
      ∙ ap (λ m. if ltb (length f.filled) limit then chunked after else m) (ih f.source after hp)

  -- With a header at hand, `import` goes on as `build` does.
  pub import_loop-build_loop :
      (fuel : ℕ) (source : List (Option ℕ)) (p : Progress) (header : ObjectHeader)
      → p.maybe_header ≡ some header
      → import_loop digest codecs limit fuel source p
        ≡ build_loop digest codecs limit fuel [] source p
  unfolding import_loop build_loop
  import_loop-build_loop zero source p header hp = refl
  import_loop-build_loop (suc fuel) source p header hp =
      import_round-build_round source p header _ _ (fill limit [] source) hp
        (λ rest q hq. import_loop-build_loop fuel rest q header hq) refl

  build_rounds :
      (source : List (Option ℕ)) (p : Progress) (next other : List (Option ℕ) → Progress → Chunking)
      (o : Option Filled)
      → ((rest : List (Option ℕ)) (q : Progress)
          → length rest < length source
          → next rest q ≡ other rest q)
      → fill limit [] source ≡ o
      → build_round digest codecs limit p next o ≡ build_round digest codecs limit p other o
  build_rounds source p next other none ih e = refl
  build_rounds source p next other (some f) ih e = elim (fill_shorter limit source f pos e).1 [
    | inl short ↦ rw (lt→ltb (length f.filled) limit short) refl
    | inr shorter ↦
        let after = add_chunk digest codecs p f.filled (length f.filled) p.maybe_header in
        ap (λ m. if ltb (length f.filled) limit then chunked after else m)
          (ih f.source after shorter)
  ]

  -- More fuel than there are bytes left changes nothing.
  pub build_loop_fuel :
      (fuel more : ℕ) (source : List (Option ℕ)) (p : Progress)
      → length source < fuel
      → length source < more
      → build_loop digest codecs limit fuel [] source p
        ≡ build_loop digest codecs limit more [] source p
  unfolding build_loop
  build_loop_fuel zero more source p h k = absurd (omega arith)
  build_loop_fuel (suc fuel) zero source p h k = absurd (omega arith)
  build_loop_fuel (suc fuel) (suc more) source p h k =
      build_rounds source p _ _ (fill limit [] source)
        (λ rest q shorter. build_loop_fuel fuel more rest q (omega arith) (omega arith)) refl

-- Bytes that are read without an error: the buffer gets the first of them.
pub record FilledFrom (limit : ℕ) (buf src : List ℕ) : Type 0 where
  pub f : Filled
  pub got : List ℕ
  pub rest : List ℕ
  pub runs : fill limit buf (oks src) ≡ some f
  pub filled : f.filled ≡ buf ++ got
  pub left : f.source ≡ oks rest
  pub whole : got ++ rest ≡ src

pub fill-FilledFrom : (limit : ℕ) (buf src : List ℕ) → FilledFrom limit buf src
unfolding fill
fill-FilledFrom limit buf [] = record {
  f = record { filled = buf; pushed = 0; source = [] };
  got = [];
  rest = [];
  runs = refl;
  filled = sym (append-nil buf);
  left = refl;
  whole = refl;
}
fill-FilledFrom limit buf (byte ∷ src) =
    let ih = fill-FilledFrom limit (buf ++ byte ∷ []) src in
    elim (Bool-cases (length (buf ++ byte ∷ []) == limit)) [
      | inl full ↦ record {
        f = record { filled = buf ++ byte ∷ []; pushed = 1; source = oks src };
        got = byte ∷ [];
        rest = src;
        runs = rw full refl;
        filled = refl;
        left = refl;
        whole = refl;
      }
      | inr room ↦ record {
        f = one_more ih.f;
        got = byte ∷ ih.got;
        rest = ih.rest;
        runs = rw room (rw ih.runs refl);
        filled = ih.filled ∙ append_assoc buf (byte ∷ []) ih.got;
        left = ih.left;
        whole = ap (λ l. byte ∷ l) ih.whole;
      }
    ]
