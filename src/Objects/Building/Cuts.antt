-- ===== src/Objects/Building/Cuts.antt =====
-- The chunks that the loop of `build` cuts its input into.
use samizdat.Prelude.{
  ℕ, zero, suc, ◌≤◌, ◌<◌, ◌==◌, ==_iff, ◌≢◌, ltb, ltb→lt, ◌≡◌, refl, ap, sym, ◌∙◌, true, false,
  List, [], ◌∷◌, ◌++◌, Option, none, some, arith, length, length-append, append_assoc, append-nil,
  Bool-cases, inl, inr, if◌then◌else◌, >>=-eq-some, eq_of_some,
}
use samizdat.Hash.{Hash}
use samizdat.Objects.Header.Escaping.{oks, length-oks}
use samizdat.Objects.Building.{
  ObjectCodecs, Filled, fill, Progress, Chunking, chunked, add_chunk, build_round, build_loop,
}
use samizdat.Objects.Building.Chunks.{FilledBy, fill-FilledBy, FilledFrom, fill-FilledFrom}

-- The bytes of chunks.
abbrev pub concat : List (List ℕ) → List ℕ
concat [] = []
concat (chunk ∷ chunks) = chunk ++ concat chunks

abbrev pub AllShort : ℕ → List (List ℕ) → Type 0
AllShort limit [] = Unit
AllShort limit (chunk ∷ chunks) = (length chunk ≤ limit) × AllShort limit chunks

module _ (digest : List ℕ → Hash) (codecs : ObjectCodecs) where
  -- Chunks that are added one after another.
  abbrev pub add_chunks : Progress → List (List ℕ) → Progress
  add_chunks p [] = p
  add_chunks p (chunk ∷ chunks) =
      add_chunks (add_chunk digest codecs p chunk (length chunk) p.maybe_header) chunks

  -- The loop ends from any progress, and this is what it cuts the bytes into.
  pub record Cut (limit : ℕ) (bytes : List ℕ) (outcome : Progress → Chunking) : Type 0 where
    pub first : List ℕ
    pub others : List (List ℕ)
    pub runs : (p : Progress) → outcome p ≡ chunked (add_chunks p (first ∷ others))
    pub whole : concat (first ∷ others) ≡ bytes
    pub bounded : AllShort limit (first ∷ others)

nil_of_oks : (xs : List ℕ) → length (oks xs) ≡ 0 → xs ≡ []
nil_of_oks [] h = refl
nil_of_oks (x ∷ xs) h = absurd (omega (arith, h))

-- The buffer never outgrows its limit.
filled_bounded :
    (limit : ℕ) (buf : List ℕ) (source : List (Option ℕ)) (f : Filled)
    → length buf < limit
    → fill limit buf source ≡ some f
    → length f.filled ≤ limit
unfolding fill
filled_bounded limit buf [] f room h = rw (← eq_of_some _ _ h) (omega (arith, room))
filled_bounded limit buf (none ∷ source) f room h = absurd (cc (h))
filled_bounded limit buf (some byte ∷ source) f room h =
    let longer = length-append buf (byte ∷ []) in
    elim (Bool-cases (length (buf ++ byte ∷ []) == limit)) [
      | inl full ↦
          let e = eq_of_some _ _ (rw full at h) in
          let brim = (==_iff (length (buf ++ byte ∷ [])) limit).0 full in
          rw (← e) (omega (arith, brim))
      | inr spare ↦
          let (g, more, e) = >>=-eq-some (fill limit (buf ++ byte ∷ []) source) _ (rw spare at h) in
          let differ : length (buf ++ byte ∷ []) ≢ limit = λ eq. cc (spare, (==_iff _ _).1 eq) in
          let ih =
            filled_bounded limit (buf ++ byte ∷ []) source g (omega (arith, room, longer, differ))
              more in
          rw (← eq_of_some _ _ e) ih
    ]

module _ (digest : List ℕ → Hash) (codecs : ObjectCodecs) (limit : ℕ) (pos : 0 < limit) where
  abbrev after : {buf src : List ℕ} → Progress → FilledFrom limit buf src → Progress
  after p a = add_chunk digest codecs p a.f.filled (length a.f.filled) p.maybe_header

  short_round :
      (buf src : List ℕ) (next : List (Option ℕ) → Progress → Chunking)
      (a : FilledFrom limit buf src)
      → length a.f.filled ≤ limit
      → FilledBy limit buf (oks src) a.f
      → ltb (length a.f.filled) limit ≡ true
      → Cut digest codecs limit
          (buf ++ src)
          (λ p. build_round digest codecs limit p next (some a.f))
  short_round buf src next a bound by short =
      let room = ltb→lt (length a.f.filled) limit short in
      let ended : length a.f.source ≡ 0 = elim (by.stopped) [
        | inl e ↦ ap length e
        | inr e ↦ absurd (omega (arith, room, e))
      ] in
      let none_left : a.rest ≡ [] = nil_of_oks a.rest (ap length (sym a.left) ∙ ended) in
      let all : a.got ≡ src =
        sym (append-nil a.got) ∙ ap (λ r. a.got ++ r) (sym none_left) ∙ a.whole in
      record {
        first = a.f.filled;
        others = [];
        runs = λ p. ap (λ b. if b then chunked (after p a) else next a.f.source (after p a)) short;
        bounded = (bound, tt);
        whole = append-nil a.f.filled ∙ a.filled ∙ ap (λ g. buf ++ g) all;
      }

  full_round :
      (buf src : List ℕ) (next : List (Option ℕ) → Progress → Chunking)
      (a : FilledFrom limit buf src)
      → length a.f.filled ≤ limit
      → ltb (length a.f.filled) limit ≡ false
      → Cut digest codecs limit a.rest (λ q. next (oks a.rest) q)
      → Cut digest codecs limit
          (buf ++ src)
          (λ p. build_round digest codecs limit p next (some a.f))
  full_round buf src next a bound full more = record {
    first = a.f.filled;
    others = more.first ∷ more.others;
    runs = λ p.
        ap (λ b. if b then chunked (after p a) else next a.f.source (after p a)) full
        ∙ ap (λ s. next s (after p a)) a.left
        ∙ more.runs (after p a);
    bounded = (bound, more.bounded);
    whole =
        ap (λ c. a.f.filled ++ c) more.whole
        ∙ ap (λ c. c ++ a.rest) a.filled
        ∙ append_assoc buf a.got a.rest
        ∙ ap (λ c. buf ++ c) a.whole;
  }

  -- Bytes that are read without an error are cut into chunks, and the loop ends.
  pub build_loop-Cut :
      (fuel : ℕ) (buf src : List ℕ)
      → length buf < limit
      → length src < fuel
      → Cut digest codecs limit
          (buf ++ src)
          (λ p. build_loop digest codecs limit fuel buf (oks src) p)
  unfolding build_loop
  build_loop-Cut zero buf src room h = absurd (omega arith)
  build_loop-Cut (suc fuel) buf src room h =
      let a = fill-FilledFrom limit buf src in
      let by = fill-FilledBy limit buf (oks src) a.f a.runs in
      let bound = filled_bounded limit buf (oks src) a.f room a.runs in
      let next : List (Option ℕ) → Progress → Chunking =
        λ rest q. build_loop digest codecs limit fuel [] rest q in
      let fewer : ltb (length a.f.filled) limit ≡ false → length a.rest < fuel = λ full. ground (
        arith,
        by.taken,
        by.counted,
        length-oks src,
        length-oks a.rest,
        ap length a.left,
        room,
        h,
        full,
      ) in
      rw a.runs (elim (Bool-cases (ltb (length a.f.filled) limit)) [
        | inl short ↦ short_round buf src next a bound by short
        | inr full ↦
            full_round buf src next a bound full (build_loop-Cut fuel [] a.rest pos (fewer full))
      ])
